-- ===== src/Csd/Extents/Overlay.antt =====
-- How `Read` of internal/csd/server/extent_manager.go lays extents over one another.
use capper.Prelude.{
  ℕ, zero, suc, ◌+◌, ◌-◌, ◌≤◌, ◌≡◌, refl, ap, List, [], ◌∷◌, ◌++◌, length, take, leb, min, arith,
  Bool-cases, inl, inr, All,
}
use capper.Csd.Extents.{Extent, ReadReq, place, by_offset, copy_at, zeroes, add_extent}

length-copy_at : {A : Type 0} (at : ℕ) (src dst : List A) → length (copy_at at src dst) ≡ length dst
unfolding copy_at
length-copy_at zero src [] = refl
length-copy_at zero [] (d ∷ dst) = refl
length-copy_at zero (s ∷ src) (d ∷ dst) = ap suc (length-copy_at zero src dst)
length-copy_at (suc at) src [] = refl
length-copy_at (suc at) src (d ∷ dst) = ap suc (length-copy_at at src dst)

copy_at-whole : {A : Type 0} (src dst : List A) → length src ≡ length dst → copy_at 0 src dst ≡ src
unfolding copy_at
copy_at-whole [] [] h = refl
copy_at-whole (s ∷ src) [] h = absurd (omega (arith, h))
copy_at-whole [] (d ∷ dst) h = absurd (omega (arith, h))
copy_at-whole (s ∷ src) (d ∷ dst) h = ap (λ xs. s ∷ xs) (copy_at-whole src dst (omega (arith, h)))

pub length-add_extent :
    (req : ReadReq) (e : Extent) (bytes result : List ℕ)
    → length (add_extent req e bytes result) ≡ length result
unfolding add_extent
length-add_extent req e bytes result = length-copy_at _ _ result

pub length-zeroes : (n : ℕ) → length (zeroes n) ≡ n
unfolding zeroes
length-zeroes zero = refl
length-zeroes (suc n) = ap suc (length-zeroes n)

take-all : {A : Type 0} (n : ℕ) (xs : List A) → n ≡ length xs → take n xs ≡ xs
take-all zero [] h = refl
take-all zero (x ∷ xs) h = absurd (omega (arith, h))
take-all (suc n) [] h = absurd (omega (arith, h))
take-all (suc n) (x ∷ xs) h = ap (λ ys. x ∷ ys) (take-all n xs (omega (arith, h)))

-- An extent that starts where the read does and is as long replaces the result.
pub add_extent-whole :
    (req : ReadReq) (e : Extent) (bytes result : List ℕ)
    → e.offset_bytes ≡ req.offset
    → length bytes ≡ length result
    → add_extent req e bytes result ≡ bytes
unfolding add_extent
add_extent-whole req e bytes result at long =
    let from : req.offset - e.offset_bytes ≡ 0 = omega (arith, at) in
    let to : e.offset_bytes + 0 - req.offset ≡ 0 = omega (arith, at) in
    let all : min (length bytes - 0) (length result - 0) ≡ length bytes = omega (arith, long) in
    rw (from, to, take-all (min (length bytes - 0) (length result - 0)) bytes all)
      (copy_at-whole bytes result long)

-- The rows end in one that starts at an offset.
unfoldable pub EndsAt : ℕ → List Extent → Type 0
EndsAt at [] = ⊥
EndsAt at (e ∷ []) = e.offset_bytes ≡ at
EndsAt at (e ∷ x ∷ xs) = EndsAt at (x ∷ xs)

ends_behind : (at : ℕ) (x : Extent) (xs : List Extent) → EndsAt at xs → EndsAt at (x ∷ xs)
unfolding EndsAt
ends_behind at x [] h = absurd h
ends_behind at x (y ∷ ys) h = h

place-EndsAt :
    (at : ℕ) (e : Extent) (xs : List Extent)
    → e.offset_bytes ≤ at
    → EndsAt at xs
    → EndsAt at (place e xs)
unfolding EndsAt place
place-EndsAt at e [] le h = absurd h
place-EndsAt at e (x ∷ []) le h = elim (Bool-cases (leb e.offset_bytes x.offset_bytes)) [
  | inl b ↦ rw b h
  | inr b ↦ absurd (ground (arith, b, h))
]
place-EndsAt at e (x ∷ y ∷ ys) le h = elim (Bool-cases (leb e.offset_bytes x.offset_bytes)) [
  | inl b ↦ rw b h
  | inr b ↦ rw b (ends_behind at x (place e (y ∷ ys)) (place-EndsAt at e (y ∷ ys) le h))
]

-- Sorting leaves a row at the end that starts where the last of the list does, if no other starts later.
pub by_offset-EndsAt :
    (at : ℕ) (es : List Extent) (e : Extent)
    → All (λ x. x.offset_bytes ≤ at) es
    → e.offset_bytes ≡ at
    → EndsAt at (by_offset (es ++ e ∷ []))
unfolding by_offset place EndsAt
by_offset-EndsAt at [] e a h = h
by_offset-EndsAt at (x ∷ es) e a h =
    place-EndsAt at x (by_offset (es ++ e ∷ [])) a.0 (by_offset-EndsAt at es e a.1 h)

place-All :
    (P : Extent → Type 0) (e : Extent) (xs : List Extent) → P e → All P xs → All P (place e xs)
unfolding place
place-All P e [] p a = (p, tt)
place-All P e (x ∷ xs) p a = ground (arith, p, a.0, a.1, place-All P e xs)

pub by_offset-All : (P : Extent → Type 0) (es : List Extent) → All P es → All P (by_offset es)
unfolding by_offset
by_offset-All P [] a = tt
by_offset-All P (e ∷ es) a = place-All P e (by_offset es) a.0 (by_offset-All P es a.1)

-- ===== src/Csd/Extents/Wrapped/Copy.antt =====
-- The bytes that Read of internal/csd/server/extent_manager.go copies from one extent, on int64.
use capper.Prelude.{
  ℕ, zero, suc, ◌+◌, ◌-◌, ◌≤◌, ◌<◌, ◌≡◌, ◌∙◌, refl, ap, sym, true, false, List, [], ◌∷◌, some,
  length, take, drop, ltb, ltb→lt, min, if◌then◌else◌, arith, Bool-cases, inl, inr, ◌⊎◌,
}
use capper.Csd.Extents
use capper.Csd.Extents.{Extent, ReadReq, extent_size, copy_at}
use capper.Csd.Extents.Wrapped
use capper.Csd.Extents.Wrapped.{plus, minus, less, copy_len, src_start, copied, slice}
use capper.Csd.Extents.Wrapped.Plain.{
  Small, plus-Small, minus-Small, negative-Small, less-Small, minus-negative, minus-high,
  less-negative,
}

copy_at-nil : (at : ℕ) (dst : List ℕ) → copy_at at [] dst ≡ dst
unfolding copy_at
copy_at-nil at [] = refl
copy_at-nil zero (d ∷ dst) = refl
copy_at-nil (suc at) (d ∷ dst) = ap (λ xs. d ∷ xs) (copy_at-nil at dst)

take-nil : (n : ℕ) → take {A = ℕ} n [] ≡ []
take-nil zero = refl
take-nil (suc n) = refl

drop-take : (m n : ℕ) (xs : List ℕ) → drop m (take (m + n) xs) ≡ take n (drop m xs)
drop-take zero n xs = ap (λ k. take k xs) (omega arith)
drop-take (suc m) n [] = ap (drop (suc m)) (take-nil (suc m + n)) ∙ sym (take-nil n)
drop-take (suc m) n (x ∷ xs) =
    let e : suc m + n ≡ suc (m + n) = omega arith in rw e (drop-take m n xs)

-- The number of bytes that are copied, as the code computes it: none, or as many as there are and fit.
unfoldable CopyLen : ℕ → ℕ → ℕ → ℕ → ℕ → Type 0
CopyLen size from room to n =
    ((less 0 n ≡ false) × (min (size - from) (room - to) ≡ 0))
    ⊎ ((n ≡ min (size - from) (room - to)) × (from ≤ size) × (to ≤ room))

module _ (size from room to : ℕ) (s : Small (to + size)) (r : Small room) (g : Small from)
    (one : (from ≡ 0) ⊎ (to ≡ 0)) where
  short_lem : size < from → CopyLen size from room to (copy_len size from room to)
  unfolding CopyLen
  short_lem h =
      let high = minus-high size from g h in
      let start : to ≡ 0 = zero_of one in
      let at : plus to (minus size from) ≡ minus size from =
        rw start (plus_zero (minus size from) high.1) in
      rw (at, less-negative room (minus size from) r high.0 high.1)
        (inl (less-negative 0 (minus size from) (omega arith) high.0 high.1, omega (arith, h)))
    where
      zero_of : (from ≡ 0) ⊎ (to ≡ 0) → to ≡ 0
      zero_of (inl z) = absurd (omega (arith, z, h))
      zero_of (inr z) = z

      plus_zero : (n : ℕ) → n < 18_446_744_073_709_551_616 → plus 0 n ≡ n
      plus_zero n l = unfold plus in omega arith

  cut_lem : from ≤ size → room < to + (size - from) → CopyLen size from room to (minus room to)
  unfolding CopyLen
  cut_lem h k = elim (Bool-cases (ltb room to)) [
    | inl b ↦
        let high = minus-high room to (omega (arith, s)) (ltb→lt room to b) in
        inl (
          less-negative 0 (minus room to) (omega arith) high.0 high.1,
          (let l = ltb→lt room to b in omega (arith, l)),
        )
    | inr b ↦
        let l : to ≤ room = ground (arith, b) in
        inr (minus-Small room to r l ∙ (omega (arith, l, h, k)), h, l)
  ]

  enough_lem : from ≤ size → CopyLen size from room to (copy_len size from room to)
  enough_lem h =
      let n = minus-Small size from (omega (arith, s)) h in
      let at = plus-Small to (size - from) (omega (arith, s, h)) in
      rw (n, at, less-Small room (to + (size - from)) r (omega (arith, s, h)))
        (go (Bool-cases (ltb room (to + (size - from)))))
    where
      go :
          (b : (ltb room (to + (size - from)) ≡ true) ⊎ (ltb room (to + (size - from)) ≡ false))
          → CopyLen size from room to
              (if ltb room (to + (size - from)) then minus room to else (size - from))
      go (inl b) = rw b (cut_lem h (ltb→lt room (to + (size - from)) b))
      go (inr b) = rw b (unfold CopyLen in inr (ground (arith, b), h, ground (arith, b)))

  copy_len-lem : CopyLen size from room to (copy_len size from room to)
  copy_len-lem = elim (Bool-cases (ltb size from)) [
    | inl b ↦ short_lem (ltb→lt size from b)
    | inr b ↦ enough_lem (ground (arith, b))
  ]

slice-Small :
    (from n : ℕ) (xs : List ℕ)
    → Small (length xs)
    → from + n ≤ length xs
    → slice from (plus from n) xs ≡ some (take n (drop from xs))
unfolding slice
slice-Small from n xs h k =
    let at = plus-Small from n (omega (arith, h, k)) in
    let ordered : ltb (from + n) from ≡ false = ground arith in
    let inside : ltb (length xs) (from + n) ≡ false = ground (arith, k) in
    rw
      (
        at,
        negative-Small from (omega (arith, h, k)),
        less-Small (from + n) from (omega (arith, h, k)) (omega (arith, h, k)),
        less-Small (length xs) (from + n) h (omega (arith, h, k)),
        ordered,
        inside,
      )
      (ap some (drop-take from n xs))

copied-Small :
    (n from to : ℕ) (bytes result : List ℕ)
    → Small (length bytes)
    → Small (length result)
    → from + n ≤ length bytes
    → to + n ≤ length result
    → copied n from to bytes result ≡ some (copy_at to (take n (drop from bytes)) result)
unfolding copied
copied-Small n from to bytes result h k l m = elim (Bool-cases (ltb 0 n)) [
  | inl b ↦
      rw
        (
          less-Small 0 n (omega arith) (omega (arith, h, l)),
          b,
          slice-Small to n result k m,
          slice-Small from n bytes h l,
        )
        refl
  | inr b ↦
      let none_left : n ≡ 0 = ground (arith, b) in
      rw (less-Small 0 n (omega arith) (omega (arith, h, l)), b, none_left)
        (ap some (sym (copy_at-nil to result)))
]

copied-CopyLen :
    (n from to : ℕ) (bytes result : List ℕ)
    → Small (length bytes)
    → Small (length result)
    → CopyLen (length bytes) from (length result) to n
    → copied n from to bytes result
      ≡ some (
          copy_at to
            (take (min (length bytes - from) (length result - to)) (drop from bytes))
            result)
unfolding CopyLen copied
copied-CopyLen n from to bytes result h k (inl (no_bytes, z)) =
    rw (no_bytes, z) (ap some (sym (copy_at-nil to result)))
copied-CopyLen n from to bytes result h k (inr (e, l, m)) =
    ap (λ x. copied x from to bytes result) e
    ∙ copied-Small (min (length bytes - from) (length result - to)) from to bytes result h k
        (omega (arith, l)) (omega (arith, m))

-- An extent that ends below 2 ^ 63, with its bytes.
abbrev pub Ends : Extent → Type 0
Ends e = Small (e.offset_bytes + extent_size)

pub add_extent-Small :
    (req : ReadReq) (e : Extent) (bytes result : List ℕ)
    → Ends e
    → length bytes ≤ extent_size
    → Small (req.offset + req.length)
    → length result ≡ req.length
    → Wrapped.add_extent req e bytes result ≡ some (Extents.add_extent req e bytes result)
unfolding Wrapped.add_extent Extents.add_extent
add_extent-Small req e bytes result h k l m =
    let from = req.offset - e.offset_bytes in
    let to = e.offset_bytes + from - req.offset in
    rw (src_lem, dst_lem)
      (copied-CopyLen (copy_len (length bytes) from (length result) to) from to bytes result
        (omega (arith, h, k)) (omega (arith, l, m))
        (copy_len-lem (length bytes) from (length result) to (omega (arith, h, k, l))
          (omega (arith, l, m)) (omega (arith, l)) one))
  where
    one :
        (req.offset - e.offset_bytes ≡ 0)
        ⊎ (e.offset_bytes + (req.offset - e.offset_bytes) - req.offset ≡ 0)
    one = elim (Bool-cases (ltb req.offset e.offset_bytes)) [
      | inl b ↦ let x = ltb→lt req.offset e.offset_bytes b in inl (omega (arith, x))
      | inr b ↦ let x : e.offset_bytes ≤ req.offset = ground (arith, b) in inr (omega (arith, x))
    ]

    src_lem : src_start req e ≡ req.offset - e.offset_bytes
    src_lem = elim (Bool-cases (ltb req.offset e.offset_bytes)) [
      | inl b ↦
          rw
            (minus-negative req.offset e.offset_bytes (omega (arith, h))
              (ltb→lt req.offset e.offset_bytes b))
            (let x = ltb→lt req.offset e.offset_bytes b in omega (arith, x))
      | inr b ↦
          let x : e.offset_bytes ≤ req.offset = ground (arith, b) in
          let d = minus-Small req.offset e.offset_bytes (omega (arith, l)) x in
          rw (d, negative-Small (req.offset - e.offset_bytes) (omega (arith, l))) refl
    ]

    dst_lem :
        minus (plus e.offset_bytes (req.offset - e.offset_bytes)) req.offset
        ≡ e.offset_bytes + (req.offset - e.offset_bytes) - req.offset
    dst_lem = rw (plus-Small e.offset_bytes (req.offset - e.offset_bytes) (omega (arith, h, l))) (
        minus-Small (e.offset_bytes + (req.offset - e.offset_bytes)) req.offset
          (omega (arith, h, l)) (omega arith))

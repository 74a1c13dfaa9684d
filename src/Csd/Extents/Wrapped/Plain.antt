-- ===== src/Csd/Extents/Wrapped/Plain.antt =====
-- Below 2 ^ 63 the calls of internal/csd/server/extent_manager.go compute on int64 as on plain numbers.
use capper.Prelude.{
  ℕ, zero, suc, ◌+◌, ◌-◌, ◌%◌, ◌≤◌, ◌<◌, ◌≡◌, ◌∙◌, refl, ap, sym, String, true, false, List, [],
  ◌∷◌, some, length, take, drop, ltb, arith, Bool-cases, inl, inr, take-append-drop, length-append,
  ◌==◌, str_eq, find,
}
use capper.Prelude.Action.{M, Result, ok, err, ◌>>=◌, ◌>>◌, bound}
use capper.Csd.Extents
use capper.Csd.Extents.{Inode, Disk, Error, Faults, WriteReq, extent_size}
use capper.Csd.Extents.Wrapped
use capper.Csd.Extents.Wrapped.{plus, minus, raised, less, negative}

abbrev pub Small : ℕ → Type 0
Small a = a < 9_223_372_036_854_775_808

pub plus-Small : (a b : ℕ) → Small (a + b) → plus a b ≡ a + b
unfolding plus
plus-Small a b h = omega arith

pub minus-Small : (a b : ℕ) → Small a → b ≤ a → minus a b ≡ a - b
unfolding minus
minus-Small a b h k = omega arith

pub negative-Small : (a : ℕ) → Small a → negative a ≡ false
unfolding negative
negative-Small a h = ground arith

pub raised-Small : (a : ℕ) → Small a → raised a ≡ a + 9_223_372_036_854_775_808
unfolding raised plus
raised-Small a h = omega arith

pub less-Small : (a b : ℕ) → Small a → Small b → less a b ≡ ltb a b
unfolding less
less-Small a b h k = rw (raised-Small a h, raised-Small b k) (ground arith)

pub minus-negative : (a b : ℕ) → Small b → a < b → negative (minus a b) ≡ true
unfolding minus negative
minus-negative a b h k =
    let low : 9_223_372_036_854_775_808 ≤ minus a b = omega arith in ground (arith, low)

seq-same :
    {B : Type 0} (m : M Disk Error (Unit {0})) (k l : M Disk Error B) (d : Disk)
    → ((e : Disk) → k e ≡ l e)
    → (m >> k) d ≡ (m >> l) d
seq-same m k l d h = go (m d)
  where
    go : (r : Result Error (Unit {0}) × Disk) → bound r (λ _. k) ≡ bound r (λ _. l)
    go (ok u, e) = h e
    go (err x, e) = refl

pub bind-same :
    {A B : Type 0} (m : M Disk Error A) (k l : A → M Disk Error B) (d : Disk)
    → ((a : A) (e : Disk) → k a e ≡ l a e)
    → (m >>= k) d ≡ (m >>= l) d
bind-same {A} m k l d h = go (m d)
  where
    go : (r : Result Error A × Disk) → bound r k ≡ bound r l
    go (ok a, e) = h a e
    go (err x, e) = refl

pub minus-high :
    (a b : ℕ)
    → Small b
    → a < b
    → (9_223_372_036_854_775_808 ≤ minus a b) × (minus a b < 18_446_744_073_709_551_616)
unfolding minus
minus-high a b h k = (omega arith, omega arith)

-- A pattern of a number below 0 is above no other.
pub less-negative :
    (a b : ℕ)
    → Small a
    → 9_223_372_036_854_775_808 ≤ b
    → b < 18_446_744_073_709_551_616
    → less a b ≡ false
unfolding less raised plus
less-negative a b h k l =
    let up : (a + 9_223_372_036_854_775_808) % 18_446_744_073_709_551_616
        ≡ a + 9_223_372_036_854_775_808 =
      omega arith in
    let down : (b + 9_223_372_036_854_775_808) % 18_446_744_073_709_551_616
        < 9_223_372_036_854_775_808 =
      omega arith in
    rw up (ground (arith, down))

module _ (key : String → ℕ → String) (f : Faults) where
  length-parts : (n : ℕ) (xs : List ℕ) → length (take n xs) + length (drop n xs) ≡ length xs
  length-parts n xs =
      sym (length-append (take n xs) (drop n xs)) ∙ ap length (take-append-drop n xs)

  put_all-Small :
      (rounds : ℕ) (volume inode : String) (offset : ℕ) (bytes : List ℕ) (d : Disk)
      → Small (offset + length bytes)
      → Wrapped.put_all key f rounds volume inode offset bytes d
        ≡ Extents.put_all key f rounds volume inode offset bytes d
  unfolding Wrapped.put_all Extents.put_all
  put_all-Small zero volume inode offset [] d h = refl
  put_all-Small zero volume inode offset (b ∷ bytes) d h = refl
  put_all-Small (suc rounds) volume inode offset [] d h = refl
  put_all-Small (suc rounds) volume inode offset (b ∷ bytes) d h =
      let parts = length-parts extent_size (b ∷ bytes) in
      let next =
        plus-Small offset (length (take extent_size (b ∷ bytes))) (omega (arith, parts, h)) in
      let from = offset + length (take extent_size (b ∷ bytes)) in
      seq-same (Extents.put key f volume inode offset (take extent_size (b ∷ bytes))) _ _ d (λ e.
        ap (λ o. Wrapped.put_all key f rounds volume inode o (drop extent_size (b ∷ bytes)) e) next
        ∙ put_all-Small rounds volume inode from (drop extent_size (b ∷ bytes)) e
            (omega (arith, parts, h)))

  write_extents-Small :
      (req : WriteReq) (n : Inode) (d : Disk)
      → Small (req.offset + length req.bytes)
      → Small n.size_bytes
      → Wrapped.write_extents key f req n d ≡ Extents.write_extents key f req n d
  unfolding Wrapped.write_extents Extents.write_extents
  write_extents-Small req n d h k =
      rw
        (
          plus-Small req.offset (length req.bytes) h,
          less-Small n.size_bytes (req.offset + length req.bytes) k h,
          put_all-Small (length req.bytes) req.volume_id req.inode_id req.offset req.bytes d h,
        )
        refl

  -- A file whose size is an int64.
  pub write-Small :
      (req : WriteReq) (d : Disk) (n : Inode)
      → find (λ x. str_eq x.id req.inode_id) d.inodes ≡ some n
      → Small (req.offset + length req.bytes)
      → Small n.size_bytes
      → Wrapped.write key f req d ≡ Extents.write key f req d
  unfolding Wrapped.write Extents.write Extents.get
  write-Small req d n e h k = elim (Bool-cases (length req.bytes == 0)) [
    | inl z ↦ rw z refl
    | inr z ↦ elim (Bool-cases (f Extents.get_inode)) [
      | inl g ↦ rw (z, g) refl
      | inr g ↦ elim (Bool-cases (Extents.is_inline key f req)) [
        | inl i ↦ rw (z, g, e, i) refl
        | inr i ↦ rw (z, g, e, i) (write_extents-Small req n d h k)
      ]
    ]
  ]

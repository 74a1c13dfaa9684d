-- ===== src/Csd/Extents/Pieces.antt =====
-- How `Write` of internal/csd/server/extent_manager.go cuts bytes into extents.
use capper.Prelude.{
  ℕ, zero, suc, ◌+◌, ◌≤◌, ◌<◌, ◌≡◌, ◌∙◌, refl, ap, sym, subst, String, false, List, [], ◌∷◌, ◌++◌,
  some, find, length, take, drop, take-append-drop, length-take-le, ◌==◌, str_eq, arith, All,
}
use capper.Prelude.Action.{ok, ◌>>◌}
use capper.Csd.Extents.{
  Inode, Extent, Object, Disk, WriteReq, extent_size, write, write_extents, put, put_all, update,
  charge, get, append, commit, is_inline,
}
use capper.Csd.Extents.ReadBack.{no_faults, put_after, put_all-nil}
use mathlib.Core.List.{append_assoc, append-nil}

-- A piece of at most `n` bytes, which is not empty, and what is left.
drop-shorter : {A : Type 0} (n : ℕ) (xs : List A) → length (drop n xs) ≤ length xs
drop-shorter zero xs = omega arith
drop-shorter (suc n) [] = omega arith
drop-shorter (suc n) (x ∷ xs) = omega (arith, drop-shorter n xs)

first_piece :
    (n b : ℕ) (bs : List ℕ)
    → 0 < n
    → (take n (b ∷ bs) ++ drop n (b ∷ bs) ≡ b ∷ bs)
      × (length (drop n (b ∷ bs)) ≤ length bs)
      × (0 < length (take n (b ∷ bs)))
      × (length (take n (b ∷ bs)) ≤ n)
first_piece zero b bs h = absurd (omega (arith, h))
first_piece (suc n) b bs h = (
  take-append-drop (suc n) (b ∷ bs),
  drop-shorter n bs,
  omega arith,
  length-take-le (suc n) (b ∷ bs),
)

module _ (key : String → ℕ → String) (volume inode : String) where
  -- The rows and the objects of pieces that lie one behind the other.
  pub rows_of : ℕ → List (List ℕ) → List Extent
  rows_of offset [] = []
  rows_of offset (c ∷ cs) =
      record {
        inode_id = inode;
        offset_bytes = offset;
        length_bytes = length c;
        object_key = key inode offset;
      }
      ∷ rows_of (offset + length c) cs

  pub objects_of : ℕ → List (List ℕ) → List Object → List Object
  objects_of offset [] objects = objects
  objects_of offset (c ∷ cs) objects =
      objects_of (offset + length c) cs
        (record { volume_id = volume; name = key inode offset; bytes = c } ∷ objects)

  pub joined : List (List ℕ) → List ℕ
  joined [] = []
  joined (c ∷ cs) = c ++ joined cs

  abbrev pub Sized : List ℕ → Type 0
  Sized c = (0 < length c) × (length c ≤ extent_size)

  -- The bytes are cut into pieces, and these are what is stored.
  pub Stored : ℕ → List ℕ → Disk → Disk → Type 0
  unfolding rows_of objects_of joined
  Stored offset bytes d later =
      (cs : List (List ℕ)) × (joined cs ≡ bytes)
      × All Sized cs
      × (later.extents ≡ d.extents ++ rows_of offset cs)
      × (later.objects ≡ objects_of offset cs d.objects)

  Stored-nil : (offset : ℕ) (d : Disk) → Stored offset [] d d
  unfolding Stored rows_of objects_of joined
  Stored-nil offset d = ([], refl, tt, sym (append-nil d.extents), refl)

  Stored-cons :
      (offset : ℕ) (c rest : List ℕ) (d later : Disk)
      → Sized c
      → Stored (offset + length c) rest (put_after key volume inode offset c d) later
      → Stored offset (c ++ rest) d later
  unfolding Stored rows_of objects_of joined put_after put append commit
  Stored-cons offset c rest d later size (cs, whole, sized, rows, objects) = (
    c ∷ cs,
    ap (λ r. c ++ r) whole,
    (size, sized),
    rows ∙ append_assoc d.extents _ (rows_of (offset + length c) cs),
    objects,
  )

  put_all-next :
      (rounds offset : ℕ) (c rest : List ℕ) (d later : Disk)
      → put_all key no_faults rounds volume inode
          (offset + length c)
          rest
          (put_after key volume inode offset c d)
        ≡ (ok tt, later)
      → (put key no_faults volume inode offset c
            >> put_all key no_faults rounds volume inode (offset + length c) rest)
          d
        ≡ (ok tt, later)
  unfolding put_after put append commit
  put_all-next rounds offset c rest d later h = h

  put_all-step :
      (rounds offset b : ℕ) (bs : List ℕ) (d : Disk)
      → put_all key no_faults (suc rounds) volume inode offset (b ∷ bs) d
        ≡ (put key no_faults volume inode offset (take extent_size (b ∷ bs))
              >> put_all key no_faults rounds volume inode
                  (offset + length (take extent_size (b ∷ bs)))
                  (drop extent_size (b ∷ bs)))
            d
  unfolding put_all
  put_all-step rounds offset b bs d = refl

  put_all_lem :
      (rounds offset : ℕ) (bytes : List ℕ) (d : Disk)
      → length bytes ≤ rounds
      → (later : Disk) × (put_all key no_faults rounds volume inode offset bytes d ≡ (ok tt, later))
        × Stored offset bytes d later
  put_all_lem zero offset [] d h =
      (d, put_all-nil key volume inode zero offset d, Stored-nil offset d)
  put_all_lem (suc rounds) offset [] d h =
      (d, put_all-nil key volume inode (suc rounds) offset d, Stored-nil offset d)
  put_all_lem zero offset (b ∷ bs) d h = absurd (omega (arith, h))
  put_all_lem (suc rounds) offset (b ∷ bs) d h =
      let (cut, shorter, some_bytes, small) = first_piece extent_size b bs (omega arith) in
      let (later, ran, rest) =
        put_all_lem rounds (offset + length (take extent_size (b ∷ bs))) (drop extent_size (b ∷ bs))
          (put_after key volume inode offset (take extent_size (b ∷ bs)) d)
          (omega (arith, shorter, h)) in
      (
        later,
        put_all-step rounds offset b bs d ∙ put_all-next rounds offset _ _ d later ran,
        subst (λ x. Stored offset x d later) cut
            (Stored-cons offset _ _ d later (some_bytes, small) rest),
      )

-- A write of at least one byte that is not kept in the inode succeeds where no statement fails, however
-- many bytes it has: it cuts them into pieces of at least one byte and at most an extent, whose rows and
-- objects it adds one behind the other from its offset on, and together the pieces are the bytes.
pub write-Stored_plain :
    (key : String → ℕ → String) (req : WriteReq) (d : Disk) (n : Inode)
    → find (λ x. str_eq x.id req.inode_id) d.inodes ≡ some n
    → 0 < length req.bytes
    → is_inline key no_faults req ≡ false
    → ((write key no_faults req d).0 ≡ ok tt)
      × Stored key req.volume_id req.inode_id req.offset req.bytes d (write key no_faults req d).1
unfolding write get write_extents update charge Stored
write-Stored_plain key req d n e some_bytes big =
    let not_empty : (length req.bytes == 0) ≡ false = ground (arith, some_bytes) in
    let (stored, ran, pieces) =
      put_all_lem key req.volume_id req.inode_id (length req.bytes) req.offset req.bytes d
        (omega arith) in
    (rw (not_empty, e, big, ran) refl, rw (not_empty, e, big, ran) pieces)

-- ===== src/Csd/Extents/ReadBack.antt =====
-- What `Write` of internal/csd/server/extent_manager.go puts into extents, `Read` gives back.
use capper.Prelude.{
  ℕ, zero, suc, ◌+◌, ◌≤◌, ◌<◌, ◌≡◌, ◌∙◌, refl, ap, sym, String, true, false, ◌&&◌, List, [], ◌∷◌,
  ◌++◌, some, keep, length, take, drop, ltb, str_eq, eq_iff, if◌then◌else◌, arith, Bool-cases, inl,
  inr, All,
}
use capper.Prelude.Action.{ok}
use capper.Csd.Extents.{
  Extent, Object, Disk, Faults, WriteReq, ReadReq, extent_size, object_of, add_extent, in_range,
  read_all, put, put_all, append, commit,
}
use capper.Csd.Extents.Overlay.{EndsAt, length-add_extent, add_extent-whole}

abbrev pub no_faults : Faults
no_faults s = false

module _ (req : ReadReq) (bytes : List ℕ) (d : Disk) where
  -- The object of a row is there, and holds these bytes if the row starts where the read does.
  unfoldable pub Served : Extent → Type 0
  Served e =
      (b : List ℕ) × (object_of req.volume_id e.object_key d.objects ≡ some b)
      × (e.offset_bytes ≡ req.offset → b ≡ bytes)

  pub read_all-EndsAt :
      (es : List Extent) (result : List ℕ)
      → EndsAt req.offset es
      → length bytes ≡ length result
      → All Served es
      → read_all no_faults req es result d ≡ (ok bytes, d)
  unfolding read_all EndsAt Served
  read_all-EndsAt [] result at long a = absurd at
  read_all-EndsAt (e ∷ []) result at long ((b, found, same), _) = rw (found) (
      ap (λ x. (ok x, d))
        (ap (λ x. add_extent req e x result) (same at)
          ∙ add_extent-whole req e bytes result at long))
  read_all-EndsAt (e ∷ x ∷ es) result at long ((b, found, same), a) = rw (found) (
      read_all-EndsAt (x ∷ es) (add_extent req e b result) at
        (long ∙ sym (length-add_extent req e b result)) a)

module _ (key : String → ℕ → String) (req : WriteReq) where
  abbrev pub range : ReadReq
  range = record {
    volume_id = req.volume_id;
    inode_id = req.inode_id;
    offset = req.offset;
    length = length req.bytes;
  }

  -- The rows of the file are named after their offsets, their objects are there, and none starts behind the
  -- first byte that is written and before the last one.
  unfoldable pub Sound : Disk → Extent → Type 0
  Sound d e =
      str_eq e.inode_id req.inode_id ≡ true
      → (e.object_key ≡ key req.inode_id e.offset_bytes)
        × ((b : List ℕ) × (object_of req.volume_id e.object_key d.objects ≡ some b))
        × (ltb req.offset e.offset_bytes && ltb e.offset_bytes (req.offset + length req.bytes)
            ≡ false)

  abbrev pub row : Extent
  row = record {
    inode_id = req.inode_id;
    offset_bytes = req.offset;
    length_bytes = length req.bytes;
    object_key = key req.inode_id req.offset;
  }

  abbrev pub object : Object
  object = record {
    volume_id = req.volume_id;
    name = key req.inode_id req.offset;
    bytes = req.bytes;
  }

  pub object_of-stored :
      (name : String) (objects : List Object)
      → object_of req.volume_id name (object ∷ objects) ≡ (
          if str_eq (key req.inode_id req.offset) name
          then some req.bytes
          else object_of req.volume_id name objects)
  object_of-stored name objects =
      let self : str_eq req.volume_id req.volume_id ≡ true =
        (eq_iff req.volume_id req.volume_id).1 refl in
      elim (Bool-cases (str_eq (key req.inode_id req.offset) name)) [
        | inl e ↦ rw (self, e) refl
        | inr e ↦ rw (self, e) refl
      ]

  module _ (d later : Disk) (stored : later.objects ≡ object ∷ d.objects) where
    Sound-Served :
        (e : Extent)
        → Sound d e
        → in_range no_faults range e ≡ true
        → (e.offset_bytes ≤ req.offset) × Served range req.bytes later e
    unfolding Sound Served in_range
    Sound-Served e s h =
        let (named, (b, found), apart) = s (ground (arith, h)) in
        let before : e.offset_bytes ≤ req.offset = ground (arith, h, apart) in
        let now =
          ap (object_of req.volume_id e.object_key) stored
          ∙ object_of-stored e.object_key d.objects in
        elim (Bool-cases (str_eq (key req.inode_id req.offset) e.object_key)) [
          | inl same ↦ (before, (req.bytes, now ∙ (rw same refl), λ _. refl))
          | inr other ↦ (
            before,
            (
              b,
              now ∙ (rw other found),
              λ at.
                  let equal =
                    (eq_iff (key req.inode_id req.offset) e.object_key).1
                      (sym (named ∙ ap (key req.inode_id) at)) in
                  absurd (ground (arith, other, equal)),
            ),
          )
        ]

    pub rows_lem :
        (es : List Extent)
        → All (Sound d) es
        → All (λ e. e.offset_bytes ≤ req.offset) (keep (in_range no_faults range) es)
          × All (Served range req.bytes later) (keep (in_range no_faults range) es)
    rows_lem [] a = (tt, tt)
    rows_lem (e ∷ es) a = elim (Bool-cases (in_range no_faults range e)) [
      | inl h ↦
          let p = Sound-Served e a.0 h in let q = rows_lem es a.1 in rw h ((p.0, q.0), (p.1, q.1))
      | inr h ↦ rw h (rows_lem es a.1)
    ]

take-all_le : {A : Type 0} (n : ℕ) (xs : List A) → length xs ≤ n → take n xs ≡ xs
take-all_le zero [] h = refl
take-all_le zero (x ∷ xs) h = absurd (omega (arith, h))
take-all_le (suc n) [] h = refl
take-all_le (suc n) (x ∷ xs) h = ap (λ ys. x ∷ ys) (take-all_le n xs (omega (arith, h)))

drop-all_le : {A : Type 0} (n : ℕ) (xs : List A) → length xs ≤ n → drop n xs ≡ []
drop-all_le zero [] h = refl
drop-all_le zero (x ∷ xs) h = absurd (omega (arith, h))
drop-all_le (suc n) [] h = refl
drop-all_le (suc n) (x ∷ xs) h = drop-all_le n xs (omega (arith, h))

module _ (key : String → ℕ → String) (volume inode : String) where
  pub put_all-nil :
      (rounds offset : ℕ) (d : Disk)
      → put_all key no_faults rounds volume inode offset [] d ≡ (ok tt, d)
  unfolding put_all
  put_all-nil zero offset d = refl
  put_all-nil (suc rounds) offset d = refl

  unfoldable pub put_after : ℕ → List ℕ → Disk → Disk
  put_after offset bytes d = (put key no_faults volume inode offset bytes d).1

  put_lem :
      (offset : ℕ) (bytes : List ℕ) (d : Disk)
      → put key no_faults volume inode offset bytes d ≡ (
        ok tt,
        record d {
          objects =
              record { volume_id = volume; name = key inode offset; bytes = bytes } ∷ d.objects;
          extents =
              d.extents
              ++ record {
                inode_id = inode;
                offset_bytes = offset;
                length_bytes = length bytes;
                object_key = key inode offset;
              }
                ∷ [];
          journal = (put_after offset bytes d).journal;
        },
      )
  unfolding put_after put append commit
  put_lem offset bytes d = refl

  put_all_once :
      (offset b : ℕ) (bs : List ℕ) (d : Disk)
      → length (b ∷ bs) ≤ extent_size
      → put_all key no_faults (length (b ∷ bs)) volume inode offset (b ∷ bs) d
        ≡ put key no_faults volume inode offset (b ∷ bs) d
  unfolding put_all
  put_all_once offset b bs d h =
      rw
        (
          take-all_le extent_size (b ∷ bs) h,
          drop-all_le extent_size (b ∷ bs) h,
          put_lem offset (b ∷ bs) d,
          put_all-nil (length bs) (offset + length (b ∷ bs)),
        )
        refl

  pub put_all_any :
      (offset : ℕ) (bytes : List ℕ) (d : Disk)
      → 0 < length bytes
      → length bytes ≤ extent_size
      → put_all key no_faults (length bytes) volume inode offset bytes d
        ≡ put key no_faults volume inode offset bytes d
  put_all_any offset [] d some_bytes h = absurd (omega (arith, some_bytes))
  put_all_any offset (b ∷ bs) d some_bytes h = put_all_once offset b bs d h

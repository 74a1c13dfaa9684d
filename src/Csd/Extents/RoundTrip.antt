-- ===== src/Csd/Extents/RoundTrip.antt =====
-- A write and a read of the same range: internal/csd/server/extent_manager.go.
use capper.Prelude.{
  find-passes, ℕ, ◌+◌, ◌-◌, ◌≤◌, ◌<◌, ◌≡◌, ◌∙◌, refl, ap, sym, subst, String, Bool, true, false,
  List, [], ◌∷◌, ◌++◌, some, find, map, keep, length, ltb, ◌==◌, str_eq, eq_iff, if◌then◌else◌,
  arith, Bool-cases, inl, inr, All,
}
use capper.Prelude.Action.{ok}
use capper.Csd.Extents.{
  Inode, Extent, Disk, WriteReq, extent_size, object_of, by_offset, zeroes, in_range, from_extents,
  read, cut, write, write_extents, put, update, charge, get, append, commit, is_inline,
}
use capper.Csd.Extents.Overlay.{length-zeroes, by_offset-EndsAt, by_offset-All}
use capper.Csd.Extents.ReadBack.{
  no_faults, Served, Sound, range, row, object, object_of-stored, rows_lem, read_all-EndsAt,
  put_after, put_all_any,
}

unfoldable pub grown : WriteReq → Inode → Inode
grown req n = record n {
  size_bytes =
      if ltb n.size_bytes (req.offset + length req.bytes)
      then req.offset + length req.bytes
      else n.size_bytes;
  inline_data = [];
}

find-replaced :
    (n m : Inode) (rows : List Inode)
    → find (λ x. str_eq x.id m.id) rows ≡ some n
    → find (λ x. str_eq x.id m.id) (map (λ x. if str_eq x.id m.id then m else x) rows) ≡ some m
find-replaced n m [] e = ground arith
find-replaced n m (x ∷ rows) e = elim (Bool-cases (str_eq x.id m.id)) [
  | inl h ↦ rw (h, (eq_iff m.id m.id).1 refl) refl
  | inr h ↦ rw (h, h) (find-replaced n m rows (ground (arith, e, h)))
]

module _ (key : String → ℕ → String) (req : WriteReq) (d : Disk) (n : Inode) where
  pub written : Disk
  unfolding grown
  written =
      let p = put_after key req.volume_id req.inode_id req.offset req.bytes d in
      record p {
        inodes = map (λ m. if str_eq m.id n.id then grown req n else m) p.inodes;
        used = (write key no_faults req d).1.used;
      }

  pub write_lem :
      find (λ x. str_eq x.id req.inode_id) d.inodes ≡ some n
      → 0 < length req.bytes
      → length req.bytes ≤ extent_size
      → is_inline key no_faults req ≡ false
      → write key no_faults req d ≡ (ok tt, written)
  unfolding write get write_extents update charge written grown put append commit put_after
  write_lem e some_bytes small big =
      let not_empty : (length req.bytes == 0) ≡ false = ground (arith, some_bytes) in
      rw
        (
          not_empty,
          e,
          big,
          put_all_any key req.volume_id req.inode_id req.offset req.bytes d some_bytes small,
        )
        refl

  pub written_rows :
      (written.objects ≡ object key req ∷ d.objects)
      × (written.extents ≡ d.extents ++ row key req ∷ [])
      × (written.inodes ≡ map (λ m. if str_eq m.id n.id then grown req n else m) d.inodes)
  unfolding written put_after put append commit
  written_rows = (refl, refl, refl)

pub keep-append :
    {A : Type 0} (f : A → Bool) (xs ys : List A) → keep f (xs ++ ys) ≡ keep f xs ++ keep f ys
keep-append f [] ys = refl
keep-append f (x ∷ xs) ys = elim (Bool-cases (f x)) [
  | inl e ↦ rw (e, keep-append f xs ys) refl
  | inr e ↦ rw (e, keep-append f xs ys) refl
]

All-snoc :
    {A : Type 0} (P : A → Type 0) (xs : List A) (x : A) → All P xs → P x → All P (xs ++ x ∷ [])
All-snoc P [] x a p = (p, tt)
All-snoc P (y ∷ ys) x a p = (a.0, All-snoc P ys x a.1 p)

row-in_range :
    (key : String → ℕ → String) (req : WriteReq)
    → 0 < length req.bytes
    → in_range no_faults (range key req) (row key req) ≡ true
unfolding in_range
row-in_range key req h =
    let self = (eq_iff req.inode_id req.inode_id).1 refl in
    let inside : ltb req.offset (req.offset + length req.bytes) ≡ true = ground (arith, h) in
    rw (self, inside) refl

cut-grown :
    (key : String → ℕ → String) (req : WriteReq) (n : Inode)
    → cut no_faults (range key req) (grown req n) req.bytes ≡ req.bytes
unfolding cut grown
cut-grown key req n =
    let enough : ltb ((grown req n).size_bytes - req.offset) (length req.bytes) ≡ false =
      elim (Bool-cases (ltb n.size_bytes (req.offset + length req.bytes))) [
        | inl h ↦ rw h (ground arith)
        | inr h ↦ rw h (ground (arith, h))
      ] in
    rw enough refl

module _ (key : String → ℕ → String) (req : WriteReq) (d later : Disk) (n : Inode)
    (stored : later.objects ≡ object key req ∷ d.objects)
    (rows : later.extents ≡ d.extents ++ row key req ∷ []) (some_bytes : 0 < length req.bytes)
    (sound : All (Sound key req d) d.extents) where
  row-Served : Served (range key req) req.bytes later (row key req)
  unfolding Served
  row-Served = (
    req.bytes,
    ap (object_of req.volume_id (key req.inode_id req.offset)) stored
        ∙ object_of-stored key req (key req.inode_id req.offset) d.objects
        ∙ (rw ((eq_iff (key req.inode_id req.offset) (key req.inode_id req.offset)).1 refl) refl),
    λ _. refl,
  )

  found : List Extent
  found = by_offset (keep (in_range no_faults (range key req)) d.extents ++ row key req ∷ [])

  found_lem : by_offset (keep (in_range no_faults (range key req)) later.extents) ≡ found
  unfolding found
  found_lem =
      rw
        (
          rows,
          keep-append (in_range no_faults (range key req)) d.extents (row key req ∷ []),
          row-in_range key req some_bytes,
        )
        refl

  from_extents_lem :
      from_extents no_faults (range key req) (grown req n) later ≡ (ok req.bytes, later)
  unfolding from_extents found
  from_extents_lem =
      let old = rows_lem key req d later stored d.extents sound in
      let ends =
        by_offset-EndsAt req.offset (keep (in_range no_faults (range key req)) d.extents)
          (row key req) old.0 refl in
      let served =
        by_offset-All (Served (range key req) req.bytes later) _
          (All-snoc (Served (range key req) req.bytes later) _ (row key req) old.1 row-Served) in
      rw
        (
          found_lem,
          read_all-EndsAt (range key req) req.bytes later found (zeroes (length req.bytes)) ends
              (sym (length-zeroes (length req.bytes))) served,
          cut-grown key req n,
        )
        refl

pub find-grown :
    (req : WriteReq) (n : Inode) (rows : List Inode)
    → find (λ x. str_eq x.id req.inode_id) rows ≡ some n
    → find
        (λ x. str_eq x.id req.inode_id)
        (map (λ m. if str_eq m.id n.id then grown req n else m) rows)
      ≡ some (grown req n)
unfolding grown
find-grown req n rows e =
    let same : n.id ≡ req.inode_id =
      (eq_iff n.id req.inode_id).0 (find-passes (λ x. str_eq x.id req.inode_id) rows n e) in
    let own : find (λ x. str_eq x.id n.id) rows ≡ some n =
      subst (λ i. find (λ x. str_eq x.id i) rows ≡ some n) (sym same) e in
    subst
      (λ i.
        find (λ x. str_eq x.id i) (map (λ m. if str_eq m.id n.id then grown req n else m) rows)
        ≡ some (grown req n))
      same (find-replaced n (grown req n) rows own)

read-grown :
    (key : String → ℕ → String) (req : WriteReq) (n : Inode) (d : Disk)
    → find (λ x. str_eq x.id req.inode_id) d.inodes ≡ some (grown req n)
    → read no_faults (range key req) d ≡ from_extents no_faults (range key req) (grown req n) d
unfolding read grown
read-grown key req n d e = rw e refl

-- On a file whose rows are sound, with no statement failing, a write of at least one byte and at most one
-- extent that is not kept in the inode succeeds, and a read of the range that was written gives back its
-- bytes. A file's rows are sound if each names the object of its offset, which exists, and none starts
-- behind the first and before the end of the range that is written.
pub read-write_plain :
    (key : String → ℕ → String) (req : WriteReq) (d : Disk) (n : Inode)
    → find (λ x. str_eq x.id req.inode_id) d.inodes ≡ some n
    → 0 < length req.bytes
    → length req.bytes ≤ extent_size
    → is_inline key no_faults req ≡ false
    → All (Sound key req d) d.extents
    → ((write key no_faults req d).0 ≡ ok tt)
      × ((read no_faults (range key req) (write key no_faults req d).1).0 ≡ ok req.bytes)
read-write_plain key req d n e some_bytes small big sound =
    let later = written key req d n in
    let parts = written_rows key req d n in
    let done = write_lem key req d n e some_bytes small big in
    let kept = ap (find (λ x. str_eq x.id req.inode_id)) parts.2 ∙ find-grown req n d.inodes e in
    let back =
      read-grown key req n later kept
      ∙ from_extents_lem key req d later n parts.0 parts.1 some_bytes sound in
    (ap (λ r. r.0) done, ap (λ r. (read no_faults (range key req) r.1).0) done ∙ ap (λ r. r.0) back)

-- ===== src/Csd/Extents/Wrapped/Files.antt =====
-- Writes and reads of internal/csd/server/extent_manager.go on int64.
use capper.Prelude.{
  ℕ, ◌+◌, ◌≤◌, ◌<◌, ◌≡◌, ◌∙◌, refl, ap, sym, String, false, [], ◌∷◌, some, find, length, ltb,
  str_eq, take, arith, All, All-append, Bool-cases, inl, inr,
}
use capper.Prelude.Action.{ok}
use capper.Csd.Extents
use capper.Csd.Extents.{Inode, Disk, WriteReq, extent_size, is_inline, zeroes}
use capper.Csd.Extents.ReadBack.{no_faults, Sound, range, row}
use capper.Csd.Extents.RoundTrip.{
  written, written_rows, write_lem, grown, find-grown, read-write_plain,
}
use capper.Csd.Extents.Pieces.{Stored, write-Stored_plain}
use capper.Csd.Extents.Inline.{front, write_forgets_plain}
use capper.Csd.Extents.Wrapped
use capper.Csd.Extents.Wrapped.Plain.{Small, write-Small}
use capper.Csd.Extents.Wrapped.Copy.{Ends}
use capper.Csd.Extents.Wrapped.Read.{Kept, read-Small}

-- What the tables hold of files, of which none reaches 2 ^ 63.
pub record IsBounded (d : Disk) : Type 0 where
  pub ends : All Ends d.extents
  pub kept : Kept d

module _ (key : String → ℕ → String) (req : WriteReq) (d : Disk) (n : Inode)
    (e : find (λ x. str_eq x.id req.inode_id) d.inodes ≡ some n) (bounded : IsBounded d)
    (size : Small n.size_bytes) (end : Small (req.offset + extent_size))
    (some_bytes : 0 < length req.bytes) (small : length req.bytes ≤ extent_size)
    (big : is_inline key no_faults req ≡ false) where
  grown_size : Small (grown req n).size_bytes
  unfolding grown
  grown_size = elim (Bool-cases (ltb n.size_bytes (req.offset + length req.bytes))) [
    | inl b ↦ rw b (omega (arith, end, small))
    | inr b ↦ rw b size
  ]

  later_lem : Wrapped.write key no_faults req d ≡ (ok tt, written key req d n)
  later_lem =
      write-Small key no_faults req d n e (omega (arith, end, small)) size
      ∙ write_lem key req d n e some_bytes small big

  later-IsBounded : IsBounded (written key req d n)
  later-IsBounded =
      let parts = written_rows key req d n in
      record {
        ends = rw (parts.1) (All-append Ends d.extents (row key req ∷ []) bounded.ends (end, tt));
        kept = rw (parts.0) (small, bounded.kept);
      }

  found_later :
      find (λ x. str_eq x.id req.inode_id) (written key req d n).inodes ≡ some (grown req n)
  found_later =
      ap (find (λ x. str_eq x.id req.inode_id)) (written_rows key req d n).2
      ∙ find-grown req n d.inodes e

  no_inline : length (grown req n).inline_data ≡ 0
  unfolding grown
  no_inline = refl

  -- What is read after the write.
  read_later :
      (r : Extents.ReadReq)
      → r.inode_id ≡ req.inode_id
      → Small (r.offset + r.length)
      → Wrapped.read no_faults r (Wrapped.write key no_faults req d).1
        ≡ Extents.read no_faults r (Extents.write key no_faults req d).1
  read_later r same h =
      let plain = write_lem key req d n e some_bytes small big in
      ap (λ p. Wrapped.read no_faults r p.1) later_lem
      ∙ (read-Small no_faults r h (grown req n) (written key req d n) (rw same found_later)
            grown_size (omega (arith, no_inline)) later-IsBounded.ends later-IsBounded.kept
          ∙ ap (λ p. Extents.read no_faults r p.1) (sym plain))

  written_lem : Wrapped.write key no_faults req d ≡ Extents.write key no_faults req d
  written_lem = later_lem ∙ sym (write_lem key req d n e some_bytes small big)

-- On a file whose rows are sound, with no statement failing, a write of at least one byte and at most one
-- extent that is not kept in the inode succeeds, and a read of the range that was written gives back its
-- bytes. A file's rows are sound if each names the object of its offset, which exists, and none starts
-- behind the first and before the end of the range that is written. The size of the file, and one extent
-- behind the offset and behind the start of each row, are below 2 ^ 63, and no object is larger than an
-- extent.
pub read-write :
    (key : String → ℕ → String) (req : WriteReq) (d : Disk) (n : Inode)
    → find (λ x. str_eq x.id req.inode_id) d.inodes ≡ some n
    → IsBounded d
    → Small n.size_bytes
    → Small (req.offset + extent_size)
    → 0 < length req.bytes
    → length req.bytes ≤ extent_size
    → is_inline key no_faults req ≡ false
    → All (Sound key req d) d.extents
    → ((Wrapped.write key no_faults req d).0 ≡ ok tt)
      × ((Wrapped.read no_faults (range key req) (Wrapped.write key no_faults req d).1).0
          ≡ ok req.bytes)
read-write key req d n e bounded size end some_bytes small big sound =
    let plain = read-write_plain key req d n e some_bytes small big sound in
    (
      ap (λ r. r.0) (written_lem key req d n e bounded size end some_bytes small big) ∙ plain.0,
      ap (λ r. r.0)
            (read_later key req d n e bounded size end some_bytes small big (range key req) refl
              (omega (arith, end, small)))
          ∙ plain.1,
    )

-- A write of at least one byte that is not kept in the inode succeeds where no statement fails, however
-- many bytes it has, as long as it ends below 2 ^ 63 as does the file: it cuts them into pieces of at least
-- one byte and at most an extent, whose rows and objects it adds one behind the other from its offset on,
-- and together the pieces are the bytes.
pub write-Stored :
    (key : String → ℕ → String) (req : WriteReq) (d : Disk) (n : Inode)
    → find (λ x. str_eq x.id req.inode_id) d.inodes ≡ some n
    → Small n.size_bytes
    → Small (req.offset + length req.bytes)
    → 0 < length req.bytes
    → is_inline key no_faults req ≡ false
    → ((Wrapped.write key no_faults req d).0 ≡ ok tt)
      × Stored key req.volume_id req.inode_id req.offset req.bytes d
          (Wrapped.write key no_faults req d).1
write-Stored key req d n e size end some_bytes big =
    rw (write-Small key no_faults req d n e end size)
      (write-Stored_plain key req d n e some_bytes big)

-- On a file whose bytes are kept in its inode, with no statement failing, a write behind them, of at most
-- one extent, succeeds, and the bytes that a read from the start gave before are read as zeroes after it.
-- The size of the file, and one extent behind the offset and behind the start of each row, are below 2 ^ 63,
-- and no object is larger than an extent.
pub write_forgets :
    (key : String → ℕ → String) (req : WriteReq) (k : ℕ) (d : Disk) (n : Inode)
    → find (λ x. str_eq x.id req.inode_id) d.inodes ≡ some n
    → IsBounded d
    → Small n.size_bytes
    → Small (length n.inline_data)
    → Small (req.offset + extent_size)
    → 0 < k
    → k ≤ length n.inline_data
    → k ≤ req.offset
    → 0 < length req.bytes
    → length req.bytes ≤ extent_size
    → All (λ x. str_eq x.inode_id req.inode_id ≡ false) d.extents
    → ((Wrapped.read no_faults (front key req k) d).0 ≡ ok (take k n.inline_data))
      × ((Wrapped.write key no_faults req d).0 ≡ ok tt)
      × ((Wrapped.read no_faults (front key req k) (Wrapped.write key no_faults req d).1).0
          ≡ ok (zeroes k))
unfolding is_inline
write_forgets key req k d n e bounded size held end some_k inside behind some_bytes small others =
    let plain = write_forgets_plain key req k d n e some_k inside behind some_bytes small others in
    let big : is_inline key no_faults req ≡ false = ground (arith, some_k, behind) in
    let at : Small (0 + k) = omega (arith, behind, end) in
    (
      ap (λ r. r.0)
            (read-Small no_faults (front key req k) at n d e size held bounded.ends bounded.kept)
          ∙ plain.0,
      ap (λ r. r.0) (written_lem key req d n e bounded size end some_bytes small big) ∙ plain.1,
      ap (λ r. r.0)
            (read_later key req d n e bounded size end some_bytes small big (front key req k) refl
              at)
          ∙ plain.2,
    )

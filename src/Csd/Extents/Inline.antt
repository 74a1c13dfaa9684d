-- ===== src/Csd/Extents/Inline.antt =====
-- Bytes kept in the inode and a later write beside them: internal/csd/server/extent_manager.go.
use capper.Prelude.{
  ℕ, ◌+◌, ◌-◌, ◌≤◌, ◌<◌, ◌≡◌, ◌∙◌, refl, ap, String, false, List, [], ◌∷◌, ◌++◌, some, find, keep,
  length, take, min, leb, ltb, ◌==◌, str_eq, eq_iff, arith, Bool-cases, inl, inr, All,
}
use capper.Prelude.Action.{ok}
use capper.Csd.Extents.{
  Inode, Extent, Disk, WriteReq, ReadReq, extent_size, by_offset, zeroes, in_range, read_all,
  from_extents, read, read_inline, cut, write, is_inline,
}
use capper.Csd.Extents.ReadBack.{no_faults, row}
use capper.Csd.Extents.RoundTrip.{written, write_lem, written_rows, keep-append, find-grown, grown}

module _ (key : String → ℕ → String) (req : WriteReq) (k : ℕ) where
  abbrev pub front : ReadReq
  front = record { volume_id = req.volume_id; inode_id = req.inode_id; offset = 0; length = k }

  others_lem :
      (es : List Extent)
      → All (λ e. str_eq e.inode_id req.inode_id ≡ false) es
      → keep (in_range no_faults front) es ≡ []
  unfolding in_range
  others_lem [] a = refl
  others_lem (e ∷ es) a = rw (a.0) (others_lem es a.1)

  row_lem : k ≤ req.offset → keep (in_range no_faults front) (row key req ∷ []) ≡ []
  unfolding in_range
  row_lem h =
      let behind : ltb req.offset (0 + k) ≡ false = ground (arith, h) in
      rw ((eq_iff req.inode_id req.inode_id).1 refl, behind) refl

  cut_lem :
      (n : Inode) (bytes : List ℕ)
      → k ≤ req.offset
      → cut no_faults front (grown req n) bytes ≡ bytes
  unfolding cut grown
  cut_lem n bytes h =
      let enough : ltb ((grown req n).size_bytes - 0) k ≡ false =
        elim (Bool-cases (ltb n.size_bytes (req.offset + length req.bytes))) [
          | inl g ↦ rw g (ground (arith, h))
          | inr g ↦ rw g (ground (arith, g, h))
        ] in
      rw enough refl

  lost_lem :
      (d later : Disk) (n : Inode)
      → k ≤ req.offset
      → later.extents ≡ d.extents ++ row key req ∷ []
      → All (λ e. str_eq e.inode_id req.inode_id ≡ false) d.extents
      → find (λ x. str_eq x.id req.inode_id) later.inodes ≡ some (grown req n)
      → (read no_faults front later).0 ≡ ok (zeroes k)
  unfolding read from_extents read_all by_offset grown
  lost_lem d later n h rows others e =
      rw
        (
          e,
          rows,
          keep-append (in_range no_faults front) d.extents (row key req ∷ []),
          others_lem d.extents others,
          row_lem h,
          cut_lem n (zeroes k) h,
        )
        refl

  before_lem :
      (d : Disk) (n : Inode)
      → find (λ x. str_eq x.id req.inode_id) d.inodes ≡ some n
      → 0 < k
      → k ≤ length n.inline_data
      → (read no_faults front d).0 ≡ ok (take k n.inline_data)
  unfolding read read_inline
  before_lem d n e some_k h =
      let kept : (length n.inline_data == 0) ≡ false = ground (arith, h, some_k) in
      let further : leb (length n.inline_data) 0 ≡ false = ground (arith, h, some_k) in
      let all : min (0 + k) (length n.inline_data) ≡ k = omega (arith, h) in
      rw (e, kept, further, all) refl

  -- On a file whose bytes are kept in its inode, with no statement failing, a write behind them, of at most
  -- one extent, succeeds, and the bytes that a read from the start gave before are read as zeroes after it.
  pub write_forgets_plain :
      (d : Disk) (n : Inode)
      → find (λ x. str_eq x.id req.inode_id) d.inodes ≡ some n
      → 0 < k
      → k ≤ length n.inline_data
      → k ≤ req.offset
      → 0 < length req.bytes
      → length req.bytes ≤ extent_size
      → All (λ e. str_eq e.inode_id req.inode_id ≡ false) d.extents
      → ((read no_faults front d).0 ≡ ok (take k n.inline_data))
        × ((write key no_faults req d).0 ≡ ok tt)
        × ((read no_faults front (write key no_faults req d).1).0 ≡ ok (zeroes k))
  unfolding is_inline
  write_forgets_plain d n e some_k inside behind some_bytes small others =
      let big : is_inline key no_faults req ≡ false = ground (arith, some_k, behind) in
      let done = write_lem key req d n e some_bytes small big in
      let parts = written_rows key req d n in
      let kept = ap (find (λ x. str_eq x.id req.inode_id)) parts.2 ∙ find-grown req n d.inodes e in
      (
        before_lem d n e some_k inside,
        ap (λ r. r.0) done,
        ap (λ r. (read no_faults front r.1).0) done
            ∙ lost_lem d (written key req d n) n behind parts.1 others kept,
      )

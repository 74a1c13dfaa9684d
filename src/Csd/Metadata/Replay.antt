-- ===== src/Csd/Metadata/Replay.antt =====
-- What a restart does with the journal, and its shortening: `apply` of internal/csd/server/metadata_manager.go,
-- Replay and Checkpoint of journal_manager.go. JSON reads a number back as `float64`: `float` is that number,
-- cut to an integer.
use capper.Prelude.{ℕ, ◌-◌, String, not, ◌&&◌, List, [], ◌∷◌, keep, str_eq, leb, ◌%◌, if◌then◌else◌}
use capper.Prelude.Int.{ℤ, pos, pos_part}
use capper.Prelude.Action.{M, Result, ok, err, ◌>>=◌, ◌>>◌, pure, ask, statement}
use capper.Csd.Metadata.{
  Inode, Value, label, number, Entry, Store, Faults, Error, failed, not_found, unknown_operation,
  truncate_journal, greatest_seq, max_seq, get, insert, update, move, pending,
}
use capper.Csd.Metadata.Manager.{World, inode_file, inode_dir, drop_link, commit}

abbrev pub text_at : String → List (String × Value) → String
text_at key [] = ""
text_at key ((k, label t) ∷ rest) = if str_eq k key then t else text_at key rest
text_at key ((k, number n) ∷ rest) = if str_eq k key then "" else text_at key rest

abbrev pub number_at : (ℤ → ℤ) → String → List (String × Value) → ℤ
number_at float key [] = pos 0
number_at float key ((k, label t) ∷ rest) = if str_eq k key then pos 0 else number_at float key rest
number_at float key ((k, number n) ∷ rest) =
    if str_eq k key then float n else number_at float key rest

-- `uint32` of a number that is not negative.
abbrev pub uint32 : ℤ → ℕ
uint32 z = pos_part z % 4_294_967_296

abbrev pub unlinked : World → String → Result Error Inode × Store → Result Error (Unit {0}) × Store
unlinked w id (ok n, d) = drop_link w.fails id n d
unlinked w id (err not_found, d) = (ok tt, d)
unlinked w id (err e, d) = (err e, d)

-- An entry that cannot be applied is marked all the same, whether or not that succeeds.
abbrev pub settled :
    World → Entry → Result Error (Unit {0}) × Store → Result Error (Unit {0}) × Store
settled w e (ok u, d) = commit w e.volume_id e.seq d
settled w e (err x, d) = (ok tt, (commit w e.volume_id e.seq d).1)

module _ (float : ℤ → ℤ) where
  abbrev pub node_from : String → Entry → String → Inode
  node_from now e node_type = record {
    id = e.inode_id;
    volume_id = e.volume_id;
    parent_id = text_at "parent_id" e.payload;
    name = text_at "name" e.payload;
    node_type = node_type;
    size_bytes = pos 0;
    mode_bits = uint32 (number_at float "mode_bits" e.payload);
    uid = 0;
    gid = 0;
    link_count = pos 1;
    version = 1;
    extent_root = "";
    inline_data = [];
    created_at = now;
    modified_at = now;
    accessed_at = now;
  }

  -- Whatever the insert answers, an error is returned: the one that is compared with ErrAlreadyExists is wrapped
  -- in another, and after a success the switch falls through to the last line.
  unfoldable pub remake : World → Entry → String → M Store Error (Unit {0})
  remake w e node_type d =
      (insert w.fails (node_from w.now e node_type) >> (λ d'. (err unknown_operation, d'))) d

  unfoldable pub apply : World → Entry → M Store Error (Unit {0})
  unfolding remake
  apply w e d =
      if str_eq e.operation "create"
      then remake w e inode_file d
      else if str_eq e.operation "mkdir"
      then remake w e inode_dir d
      else if str_eq e.operation "unlink"
      then unlinked w e.inode_id (get w.fails e.inode_id d)
      else if str_eq e.operation "rename"
      then move w.fails e.inode_id (text_at "new_parent_id" e.payload)
          (text_at "new_name" e.payload) d
      else if str_eq e.operation "truncate"
      then (get w.fails e.inode_id >>= (λ n.
            update w.fails (record n {
              size_bytes = number_at float "new_size" e.payload;
              modified_at = w.now;
            })))
          d
      else (err unknown_operation, d)

  -- Each entry has a world of its own.
  unfoldable pub replay_all : (ℕ → World) → List Entry → M Store Error (Unit {0})
  unfolding apply
  replay_all ws [] = pure tt
  replay_all ws (e ∷ es) = (λ d. settled (ws e.seq) e (apply (ws e.seq) e d)) >> replay_all ws es

  unfoldable pub replay : Faults → (ℕ → World) → String → M Store Error (Unit {0})
  unfolding replay_all
  replay f ws volume = do entries ← pending f volume; replay_all ws entries

abbrev pub journal_keep_last : ℕ
journal_keep_last = 1000

unfoldable pub checkpoint : Faults → String → M Store Error (Unit {0})
checkpoint f volume = do
  max ← ask (f greatest_seq) (failed greatest_seq) (λ d. ok (max_seq volume d.journal))
  if leb max journal_keep_last
      then pure tt
      else statement (f truncate_journal) (failed truncate_journal) (λ d. record d {
        journal =
            keep
              (λ e.
                not (
                  str_eq e.volume_id volume
                  && (e.committed && leb e.seq (max - journal_keep_last))))
              d.journal;
      })

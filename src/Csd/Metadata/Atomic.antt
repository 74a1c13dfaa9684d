-- ===== src/Csd/Metadata/Atomic.antt =====
-- A call of internal/csd/server/metadata_manager.go that is cut off after any of its statements, and the restart.
pub mod Rows
pub mod Journaled
pub mod Make
pub mod Rename
pub mod Unlink
pub mod Truncate
use capper.Prelude.{
  ℕ, suc, ◌≤◌, ◌<◌, String, Bool, true, false, not, ◌&&◌, ◌||◌, List, [], ◌∷◌, ◌≡◌, refl, sym,
  subst, ◌⊎◌, inl, inr, map, keep, find, any, str_eq, eq_iff, arith, ap, ◌∙◌, if◌then◌else◌, Option,
  none, some, All, Bool-cases, Option-cases, find-All,
}
use capper.Prelude.Int.{ℤ, pos, pos_part, neg_part, sub64, wrap64, leb_ℤ}
use capper.Prelude.Action.{M, Result, ok, err}
use capper.Csd.Metadata
use capper.Csd.Metadata.{
  Inode, Value, Entry, Store, Statement, Faults, Error, max_seq, insert_inode, delete_inode,
  move_inode, update_inode, get_inode, insert_row, delete_row, move_row, move_blocked, update_row,
  updated, moved, stands_at,
}
use capper.Csd.Metadata.Manager
use capper.Csd.Metadata.Manager.{
  World, CreateReq, UnlinkReq, RenameReq, TruncateReq, node_of, create_payload, operation_of,
  append, commit, mknode, inode_file, inode_dir,
}
use capper.Csd.Metadata.Replay.{apply, remake, node_from, uint32}
use capper.Csd.Metadata.Pending.{
  calm, restarted, waiting, applied, journaled, own_entry, waiting-journaled, inodes-journaled,
  restarted-none, inodes-restarted_one, waiting-restarted_one,
}
use capper.Csd.Metadata.Calls.{Call, create, mkdir, unlink, rename, truncate, volume_of, perform}
use capper.Csd.Metadata.Atomic.Rows.{Alike}
use capper.Csd.Metadata.Atomic.Make.{IsExact, create-Restarts, mkdir-Restarts}
use capper.Csd.Metadata.Atomic.Rename.{rename-Restarts}
use capper.Csd.Metadata.Atomic.Unlink.{unlink-Restarts}
use capper.Csd.Metadata.Atomic.Truncate.{truncate-Restarts}

-- Mode bits are 32 bits wide, an inode to be unlinked has its one link, and a size is at most 2 ^ 53.
abbrev pub IsPlain : Call → Store → Type 0
IsPlain (create req) d = req.mode_bits < 4_294_967_296
IsPlain (mkdir req) d = req.mode_bits < 4_294_967_296
IsPlain (unlink req) d = All (λ n. str_eq n.id req.inode_id ≡ true → n.link_count ≡ pos 1) d.inodes
IsPlain (rename req) d = Unit {0}
IsPlain (truncate req) d =
    (pos_part req.new_size ≤ 9_007_199_254_740_992)
    × (neg_part req.new_size ≤ 9_007_199_254_740_992)

-- A call of which any statements fail, and a restart of which none does, leave the inodes of the volume's disk
-- as they were or as the call leaves them when no statement fails, but for owners, versions and times, and
-- leave nothing pending: if nothing was pending before, mode bits are 32 bits wide, sizes are at most 2 ^ 53,
-- and the inode to be unlinked has one link.
pub restart_atomic :
    (float : ℤ → ℤ) (ws : ℕ → World) (w : World) (c : Call) (d : Store)
    → IsExact float
    → IsPlain c d
    → waiting (volume_of c) d ≡ []
    → (let rows = (restarted float ws (volume_of c) (perform w c d)).inodes in
        Alike rows d.inodes ⊎ Alike rows (perform (calm w) c d).inodes)
      × (waiting (volume_of c) (restarted float ws (volume_of c) (perform w c d)) ≡ [])
restart_atomic float ws w (create req) d x p h = create-Restarts float ws w d req x p h
restart_atomic float ws w (mkdir req) d x p h = mkdir-Restarts float ws w d req x p h
restart_atomic float ws w (unlink req) d x p h = unlink-Restarts float ws w d req p h
restart_atomic float ws w (rename req) d x p h = rename-Restarts float ws w d req h
restart_atomic float ws w (truncate req) d x p h =
    truncate-Restarts float ws w d req (x req.new_size p.0 p.1) h

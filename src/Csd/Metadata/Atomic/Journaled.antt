-- ===== src/Csd/Metadata/Atomic/Journaled.antt =====
-- A restart after a call of internal/csd/server/metadata_manager.go of which some statement failed.
use capper.Prelude.{ℕ, String, Bool, false, List, [], ◌≡◌, refl, sym, subst, ◌⊎◌, inl, inr, arith}
use capper.Prelude.Int.{ℤ}
use capper.Prelude.Action.{Result}
use capper.Csd.Metadata
use capper.Csd.Metadata.{
  Inode, Value, Entry, Store, Statement, Faults, Error, max_seq, insert_inode, delete_inode,
  move_inode, update_inode, get_inode, insert_row, delete_row, move_row, move_blocked, update_row,
  updated, moved, stands_at,
}
use capper.Csd.Metadata.Manager.{World}
use capper.Csd.Metadata.Replay.{apply}
use capper.Csd.Metadata.Pending.{
  calm, restarted, waiting, applied, journaled, own_entry, waiting-journaled, inodes-journaled,
  restarted-none, inodes-restarted_one, waiting-restarted_one,
}
use capper.Csd.Metadata.Atomic.Rows.{Alike}

module _ (float : ℤ → ℤ) (ws : ℕ → World) (w : World) (volume client operation inode : String)
    (payload : List (String × Value)) (b : Bool) (s : Statement)
    (change : List Inode → Result Error (List Inode)) (d : Store) (P : List Inode → Type 0) where
  abbrev entry : Entry
  entry = own_entry w volume client operation inode payload b s change d

  abbrev left : Store
  left = journaled w volume client operation inode payload b s change d

  -- Whether the statement has its effect or not, applying the entry has to lead to `P`.
  pub restarted-journaled :
      waiting volume d ≡ []
      → P d.inodes
      → P (applied d.inodes (change d.inodes))
      → ((e : Store)
          → (e.inodes ≡ d.inodes) ⊎ (e.inodes ≡ applied d.inodes (change d.inodes))
          → P (apply float (calm (ws entry.seq)) entry e).1.inodes)
      → P (restarted float ws volume left).inodes
        × (waiting volume (restarted float ws volume left) ≡ [])
  restarted-journaled h p q k =
      elim (waiting-journaled w volume client operation inode payload b s change d h) [
        | inl quiet ↦ rw (restarted-none float ws volume left quiet) (either, quiet)
        | inr one ↦ (
          rw (inodes-restarted_one float ws volume left entry refl one)
              (k left (inodes-journaled w volume client operation inode payload b s change d)),
          waiting-restarted_one float ws volume left entry refl one,
        )
      ]
    where
      either : P left.inodes
      either = elim (inodes-journaled w volume client operation inode payload b s change d) [
        | inl e ↦ subst P (sym e) p
        | inr e ↦ subst P (sym e) q
      ]

pub on_inodes-rows :
    (s : Statement) (change : List Inode → Result Error (List Inode)) (d : Store)
    → (Metadata.on_inodes false s change d).1.inodes ≡ applied d.inodes (change d.inodes)
on_inodes-rows s change d = ground arith

-- What a restart may leave: the rows before, or those after a call that was not cut off.
abbrev pub Either : List Inode → List Inode → List Inode → Type 0
Either before after rows = Alike rows before ⊎ Alike rows after

module _ (float : ℤ → ℤ) (ws : ℕ → World) (w : World) (d : Store) where
  abbrev pub Restarts : String → List Inode → Store → Type 0
  Restarts volume after d' =
      Either d.inodes after (restarted float ws volume d').inodes
      × (waiting volume (restarted float ws volume d') ≡ [])

  -- An unlink, and a truncation, that finds no row.
  pub missed-Restarts :
      (volume : String) (after : List Inode) (d' : Store)
      → d' ≡ d
      → waiting volume d ≡ []
      → Restarts volume after d'
  missed-Restarts volume after d' e h =
      subst (Restarts volume after) (sym e) (rw (restarted-none float ws volume d h) (inl refl, h))

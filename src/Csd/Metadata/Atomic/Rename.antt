-- ===== src/Csd/Metadata/Atomic/Rename.antt =====
-- Rename of internal/csd/server/metadata_manager.go, cut off and restarted.
use capper.Prelude.{ℕ, List, [], ◌≡◌, refl, sym, subst, ◌⊎◌, inl, inr, map, arith, ap, ◌∙◌}
use capper.Prelude.Int.{ℤ}
use capper.Csd.Metadata.{Inode, Store, move_inode, move_row}
use capper.Csd.Metadata.Manager
use capper.Csd.Metadata.Manager.{
  World, CreateReq, UnlinkReq, RenameReq, TruncateReq, node_of, create_payload, operation_of,
  append, commit, mknode, inode_file, inode_dir,
}
use capper.Csd.Metadata.Replay.{apply}
use capper.Csd.Metadata.Pending.{calm, waiting, applied}
use capper.Csd.Metadata.Atomic.Rows.{shape, move-again}
use capper.Csd.Metadata.Atomic.Journaled.{restarted-journaled, on_inodes-rows, Either, Restarts}

module _ (w : World) (d : Store) where
  pub rename-done :
      (req : RenameReq)
      → (Manager.rename (calm w) req d).1.inodes
        ≡ applied d.inodes (move_row req.inode_id req.new_parent_id req.new_name d.inodes)
  unfolding Manager.rename append commit
  rename-done req = ground arith

module _ (float : ℤ → ℤ) (ws : ℕ → World) (w : World) (d : Store) where
  pub rename-Restarts :
      (req : RenameReq)
      → waiting req.volume_id d ≡ []
      → Restarts float ws w d req.volume_id
          (Manager.rename (calm w) req d).1.inodes
          (Manager.rename w req d).1
  unfolding Manager.rename apply
  rename-Restarts req h =
      subst (λ after. Restarts float ws w d req.volume_id after (Manager.rename w req d).1)
        (sym (rename-done w d req))
        (restarted-journaled float ws w req.volume_id req.client_id "rename" req.inode_id _
          (w.fails move_inode) move_inode (move_row req.inode_id req.new_parent_id req.new_name) d
          (Either d.inodes
            (applied d.inodes (move_row req.inode_id req.new_parent_id req.new_name d.inodes)))
          h (inl refl) (inr refl)
          (λ e k. inr (
            ap (map shape) (
              on_inodes-rows move_inode (move_row req.inode_id req.new_parent_id req.new_name) e
              ∙ again e k))))
    where
      step : List Inode → List Inode
      step rows = applied rows (move_row req.inode_id req.new_parent_id req.new_name rows)

      again :
          (e : Store)
          → (e.inodes ≡ d.inodes) ⊎ (e.inodes ≡ step d.inodes)
          → step e.inodes ≡ step d.inodes
      again e (inl q) = ap step q
      again e (inr q) = ap step q ∙ move-again req.inode_id req.new_parent_id req.new_name d.inodes

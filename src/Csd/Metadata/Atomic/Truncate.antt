-- ===== src/Csd/Metadata/Atomic/Truncate.antt =====
-- Truncate of internal/csd/server/metadata_manager.go, cut off and restarted.
use capper.Prelude.{
  ℕ, true, false, List, [], ◌∷◌, ◌≡◌, refl, sym, subst, ◌⊎◌, inl, inr, map, arith, ap, ◌∙◌, none,
  some, Bool-cases, Option-cases,
}
use capper.Prelude.Int.{ℤ}
use capper.Csd.Metadata
use capper.Csd.Metadata.{
  Inode, Value, Entry, Store, Statement, Faults, Error, max_seq, insert_inode, delete_inode,
  move_inode, update_inode, get_inode, insert_row, delete_row, move_row, move_blocked, update_row,
  updated, moved, stands_at,
}
use capper.Csd.Metadata.Manager
use capper.Csd.Metadata.Manager.{
  World, CreateReq, UnlinkReq, RenameReq, TruncateReq, node_of, create_payload, operation_of,
  append, commit, mknode, inode_file, inode_dir,
}
use capper.Csd.Metadata.Replay.{apply}
use capper.Csd.Metadata.Pending.{calm, waiting, journaled, own_entry}
use capper.Csd.Metadata.Atomic.Rows.{
  shape, Alike, with_id, resized, updated-Alike, find-updated, updated-again,
}
use capper.Csd.Metadata.Atomic.Journaled.{restarted-journaled, Either, Restarts, missed-Restarts}

module _ (float : ℤ → ℤ) (ws : ℕ → World) (w : World) (d : Store) where
  module _ (req : TruncateReq) where
    truncate-missed :
        (w.fails get_inode ≡ true) ⊎ (with_id req.inode_id d.inodes ≡ none)
        → (Manager.truncate w req d).1 ≡ d
    unfolding Manager.truncate Metadata.get
    truncate-missed (inl e) = ground arith
    truncate-missed (inr e) = ground arith

    module _ (n : Inode) (found : with_id req.inode_id d.inodes ≡ some n) where
      abbrev after_truncate : List Inode
      after_truncate = map (updated (resized n req.new_size w.now)) d.inodes

      truncate-done : (Manager.truncate (calm w) req d).1.inodes ≡ after_truncate
      unfolding Manager.truncate Metadata.get append commit update_row
      truncate-done = ground arith

      truncate-journaled :
          w.fails get_inode ≡ false
          → (Manager.truncate w req d).1
            ≡ journaled w req.volume_id req.client_id "truncate" req.inode_id
                (("new_size", Metadata.number req.new_size) ∷ [])
                (w.fails update_inode)
                update_inode
                (update_row (resized n req.new_size w.now))
                d
      unfolding Manager.truncate Metadata.get append commit
      truncate-journaled f = ground arith

      abbrev own_truncate : Entry
      own_truncate =
          own_entry w req.volume_id req.client_id "truncate" req.inode_id
            (("new_size", Metadata.number req.new_size) ∷ []) (w.fails update_inode) update_inode
            (update_row (resized n req.new_size w.now)) d

      truncate-rows :
          float req.new_size ≡ req.new_size
          → (now : World) (e : Store) (m : Inode) → with_id req.inode_id e.inodes ≡ some m
          → (apply float (calm now) own_truncate e).1.inodes
            ≡ map (updated (resized m req.new_size now.now)) e.inodes
      unfolding apply Metadata.get update_row
      truncate-rows x now e m k =
          ground (arith, ap (λ size. map (updated (resized m size now.now)) e.inodes) x)

      truncate-applies :
          float req.new_size ≡ req.new_size
          → (now : World) (e : Store) → (e.inodes ≡ d.inodes) ⊎ (e.inodes ≡ after_truncate)
          → Alike (apply float (calm now) own_truncate e).1.inodes after_truncate
      truncate-applies x now e (inl q) =
          ap (map shape) (truncate-rows x now e n (ap (with_id req.inode_id) q ∙ found))
          ∙ ap (λ rows. map shape (map (updated (resized n req.new_size now.now)) rows)) q
          ∙ updated-Alike n req.new_size now.now w.now d.inodes
      truncate-applies x now e (inr q) =
          let n' = updated (resized n req.new_size w.now) n in
          ap (map shape) (
            truncate-rows x now e n' (
              ap (with_id req.inode_id) q
              ∙ find-updated req.inode_id n (resized n req.new_size w.now) d.inodes refl found))
          ∙ ap (λ rows. map shape (map (updated (resized n' req.new_size now.now)) rows)) q
          ∙ updated-again n req.new_size w.now now.now d.inodes

      truncate-found :
          float req.new_size ≡ req.new_size
          → w.fails get_inode ≡ false
          → waiting req.volume_id d ≡ []
          → Restarts float ws w d req.volume_id
              (Manager.truncate (calm w) req d).1.inodes
              (Manager.truncate w req d).1
      unfolding update_row
      truncate-found x f h =
          subst (λ after. Restarts float ws w d req.volume_id after (Manager.truncate w req d).1)
            (sym truncate-done)
            (subst (Restarts float ws w d req.volume_id after_truncate) (sym (truncate-journaled f))
              (restarted-journaled float ws w req.volume_id req.client_id "truncate" req.inode_id _
                (w.fails update_inode) update_inode (update_row (resized n req.new_size w.now)) d
                (Either d.inodes after_truncate) h (inl refl) (inr refl)
                (λ e k. inr (truncate-applies x (ws own_truncate.seq) e k))))

    pub truncate-Restarts :
        float req.new_size ≡ req.new_size
        → waiting req.volume_id d ≡ []
        → Restarts float ws w d req.volume_id
            (Manager.truncate (calm w) req d).1.inodes
            (Manager.truncate w req d).1
    truncate-Restarts x h = elim (Bool-cases (w.fails get_inode)) [
      | inl f ↦ missed-Restarts float ws w d req.volume_id _ _ (truncate-missed (inl f)) h
      | inr f ↦ elim (Option-cases (with_id req.inode_id d.inodes)) [
        | inl e ↦ missed-Restarts float ws w d req.volume_id _ _ (truncate-missed (inr e)) h
        | inr (n, e) ↦ truncate-found n e x f h
      ]
    ]

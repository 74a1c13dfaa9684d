-- ===== src/Csd/Metadata/Atomic/Unlink.antt =====
-- Unlink of internal/csd/server/metadata_manager.go, cut off and restarted.
use capper.Prelude.{
  ℕ, true, false, [], ◌∷◌, ◌≡◌, refl, sym, subst, ◌⊎◌, inl, inr, map, str_eq, arith, ap, none, some,
  All, Bool-cases, Option-cases, find-All,
}
use capper.Prelude.Int.{ℤ, pos}
use capper.Csd.Metadata
use capper.Csd.Metadata.{
  Inode, Value, Entry, Store, Statement, Faults, Error, max_seq, insert_inode, delete_inode,
  move_inode, update_inode, get_inode, insert_row, delete_row, move_row, move_blocked, update_row,
  updated, moved, stands_at,
}
use capper.Csd.Metadata.Manager
use capper.Csd.Metadata.Manager.{
  World, CreateReq, UnlinkReq, RenameReq, TruncateReq, node_of, create_payload, operation_of,
  append, commit, mknode, inode_file, inode_dir,
}
use capper.Csd.Metadata.Replay.{apply}
use capper.Csd.Metadata.Pending.{calm, waiting, journaled, own_entry}
use capper.Csd.Metadata.Atomic.Rows.{shape, find-keep_others, last_link, without, with_id}
use capper.Csd.Metadata.Atomic.Journaled.{restarted-journaled, Either, Restarts, missed-Restarts}

module _ (float : ℤ → ℤ) (ws : ℕ → World) (w : World) (d : Store) where
  module _ (req : UnlinkReq) where
    unlink-missed :
        (w.fails get_inode ≡ true) ⊎ (with_id req.inode_id d.inodes ≡ none)
        → (Manager.unlink w req d).1 ≡ d
    unfolding Manager.unlink Metadata.get
    unlink-missed (inl e) = ground arith
    unlink-missed (inr e) = ground arith

    module _ (n : Inode) (found : with_id req.inode_id d.inodes ≡ some n)
        (one : n.link_count ≡ pos 1) where
      pub unlink-done : (Manager.unlink (calm w) req d).1.inodes ≡ without req.inode_id d.inodes
      unfolding Manager.unlink Metadata.get append commit delete_row
      unlink-done = ground (arith, last_link n.link_count one)

      unlink-journaled :
          w.fails get_inode ≡ false
          → (Manager.unlink w req d).1
            ≡ journaled w req.volume_id req.client_id "unlink" req.inode_id
                (("inode_id", Metadata.label req.inode_id)
                  ∷ ("parent_id", Metadata.label req.parent_id)
                  ∷ ("name", Metadata.label req.name)
                  ∷ [])
                (w.fails delete_inode)
                delete_inode
                (delete_row req.inode_id)
                d
      unfolding Manager.unlink Metadata.get append commit
      unlink-journaled f = ground (arith, last_link n.link_count one)

      abbrev own_unlink : Entry
      own_unlink =
          own_entry w req.volume_id req.client_id "unlink" req.inode_id
            (("inode_id", Metadata.label req.inode_id)
              ∷ ("parent_id", Metadata.label req.parent_id)
              ∷ ("name", Metadata.label req.name)
              ∷ [])
            (w.fails delete_inode) delete_inode (delete_row req.inode_id) d

      -- The entry takes the row away, or finds that it is gone.
      unlink-applies :
          (now : World) (e : Store)
          → (e.inodes ≡ d.inodes) ⊎ (e.inodes ≡ without req.inode_id d.inodes)
          → (apply float (calm now) own_unlink e).1.inodes ≡ without req.inode_id d.inodes
      unfolding apply Metadata.get delete_row
      unlink-applies now e (inl q) = ground (
        arith,
        last_link n.link_count one,
        ap (with_id req.inode_id) q,
        ap (without req.inode_id) q,
      )
      unlink-applies now e (inr q) =
          ground (arith, ap (with_id req.inode_id) q, find-keep_others req.inode_id d.inodes)

      unlink-found :
          w.fails get_inode ≡ false
          → waiting req.volume_id d ≡ []
          → Restarts float ws w d req.volume_id
              (Manager.unlink (calm w) req d).1.inodes
              (Manager.unlink w req d).1
      unfolding delete_row
      unlink-found f h =
          subst (λ after. Restarts float ws w d req.volume_id after (Manager.unlink w req d).1)
            (sym unlink-done)
            (subst (Restarts float ws w d req.volume_id (without req.inode_id d.inodes))
              (sym (unlink-journaled f))
              (restarted-journaled float ws w req.volume_id req.client_id "unlink" req.inode_id _
                (w.fails delete_inode) delete_inode (delete_row req.inode_id) d
                (Either d.inodes (without req.inode_id d.inodes)) h (inl refl) (inr refl)
                (λ e k. inr (ap (map shape) (unlink-applies (ws own_unlink.seq) e k)))))

    pub unlink-Restarts :
        All (λ n. str_eq n.id req.inode_id ≡ true → n.link_count ≡ pos 1) d.inodes
        → waiting req.volume_id d ≡ []
        → Restarts float ws w d req.volume_id
            (Manager.unlink (calm w) req d).1.inodes
            (Manager.unlink w req d).1
    unlink-Restarts plain h = elim (Bool-cases (w.fails get_inode)) [
      | inl f ↦ missed-Restarts float ws w d req.volume_id _ _ (unlink-missed (inl f)) h
      | inr f ↦ elim (Option-cases (with_id req.inode_id d.inodes)) [
        | inl e ↦ missed-Restarts float ws w d req.volume_id _ _ (unlink-missed (inr e)) h
        | inr (n, e) ↦
            unlink-found n e
              (linked n (find-All (λ m. str_eq m.id req.inode_id) _ d.inodes n plain e)) f h
      ]
    ]
      where
        linked :
            (n : Inode)
            → (str_eq n.id req.inode_id ≡ true → n.link_count ≡ pos 1)
              × (str_eq n.id req.inode_id ≡ true)
            → n.link_count ≡ pos 1
        linked n p = p.0 p.1

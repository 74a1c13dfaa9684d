-- ===== src/Csd/Metadata/Atomic/Make.antt =====
-- Create and Mkdir of internal/csd/server/metadata_manager.go, cut off and restarted.
use capper.Prelude.{
  ℕ, ◌≤◌, ◌<◌, String, [], ◌≡◌, refl, sym, subst, ◌⊎◌, inl, inr, map, arith, ap, ◌∙◌,
}
use capper.Prelude.Int.{ℤ, pos, pos_part, neg_part}
use capper.Csd.Metadata.{Inode, Entry, Store, insert_inode, insert_row}
use capper.Csd.Metadata.Manager
use capper.Csd.Metadata.Manager.{
  World, CreateReq, UnlinkReq, RenameReq, TruncateReq, node_of, create_payload, operation_of,
  append, commit, mknode, inode_file, inode_dir,
}
use capper.Csd.Metadata.Replay.{apply, remake, node_from, uint32}
use capper.Csd.Metadata.Pending.{calm, waiting, applied, journaled, own_entry}
use capper.Csd.Metadata.Atomic.Rows.{shape, Alike, inserted, insert-Alike, insert-again}
use capper.Csd.Metadata.Atomic.Journaled.{restarted-journaled, Either, Restarts}

-- A `float64` is exact up to 2 ^ 53.
abbrev pub IsExact : (ℤ → ℤ) → Type 0
IsExact float =
    (z : ℤ) → pos_part z ≤ 9_007_199_254_740_992 → neg_part z ≤ 9_007_199_254_740_992 → float z ≡ z

module _ (w : World) (d : Store) where
  mknode-journaled :
      (req : CreateReq) (t : String)
      → (mknode w req t d).1
        ≡ journaled w req.volume_id req.client_id
            (operation_of t)
            w.new_inode
            (create_payload req)
            (w.fails insert_inode)
            insert_inode
            (insert_row (node_of w req t))
            d
  unfolding mknode append commit
  mknode-journaled req t = ground arith

  -- A call of which no statement fails.
  pub mknode-done :
      (req : CreateReq) (t : String)
      → (mknode (calm w) req t d).1.inodes
        ≡ applied d.inodes (insert_row (node_of w req t) d.inodes)
  unfolding mknode append commit
  mknode-done req t = ground arith

module _ (float : ℤ → ℤ) (ws : ℕ → World) (w : World) (d : Store) where
  module _ (req : CreateReq) (t : String) where
    abbrev own : Entry
    own =
        own_entry w req.volume_id req.client_id (operation_of t) w.new_inode (create_payload req)
          (w.fails insert_inode) insert_inode (insert_row (node_of w req t)) d

    mknode-Restarts :
        ((now : String) → shape (node_from float now own t) ≡ shape (node_of w req t))
        → ((now : World) (e : Store)
            → (apply float (calm now) own e).1.inodes
              ≡ inserted (node_from float now.now own t) e.inodes)
        → waiting req.volume_id d ≡ []
        → Restarts float ws w d req.volume_id
            (mknode (calm w) req t d).1.inodes
            (mknode w req t d).1
    mknode-Restarts same applies h =
        subst (λ after. Restarts float ws w d req.volume_id after (mknode w req t d).1)
          (sym (mknode-done w d req t))
          (subst (Restarts float ws w d req.volume_id (inserted n d.inodes))
            (sym (mknode-journaled w d req t))
            (restarted-journaled float ws w req.volume_id req.client_id (operation_of t) w.new_inode
              (create_payload req) (w.fails insert_inode) insert_inode (insert_row n) d
              (Either d.inodes (inserted n d.inodes)) h (inl refl) (inr refl)
              (λ e k. inr (ap (map shape) (applies (ws own.seq) e) ∙ again e k))))
      where
        n : Inode
        n = node_of w req t

        n' : Inode
        n' = node_from float (ws own.seq).now own t

        again :
            (e : Store)
            → (e.inodes ≡ d.inodes) ⊎ (e.inodes ≡ inserted n d.inodes)
            → Alike (inserted n' e.inodes) (inserted n d.inodes)
        again e (inl q) =
            ap (λ rows. map shape (inserted n' rows)) q
            ∙ insert-Alike n n' d.inodes (same (ws own.seq).now)
        again e (inr q) =
            ap (λ rows. map shape (inserted n' rows)) q
            ∙ insert-again n n' d.inodes (same (ws own.seq).now)

  mode_exact : (m : ℕ) → IsExact float → m < 4_294_967_296 → uint32 (float (pos m)) ≡ m
  mode_exact m exact small = rw (exact (pos m) (omega arith) (omega arith)) (omega arith)

  pub create-Restarts :
      (req : CreateReq)
      → IsExact float
      → req.mode_bits < 4_294_967_296
      → waiting req.volume_id d ≡ []
      → Restarts float ws w d req.volume_id
          (Manager.create (calm w) req d).1.inodes
          (Manager.create w req d).1
  unfolding Manager.create apply remake
  create-Restarts req exact small h =
      mknode-Restarts req inode_file
        (λ now.
          ap (λ k. record (shape (node_of w req inode_file)) { mode_bits = k })
            (mode_exact req.mode_bits exact small))
        (λ now e. ground arith) h

  pub mkdir-Restarts :
      (req : CreateReq)
      → IsExact float
      → req.mode_bits < 4_294_967_296
      → waiting req.volume_id d ≡ []
      → Restarts float ws w d req.volume_id
          (Manager.mkdir (calm w) req d).1.inodes
          (Manager.mkdir w req d).1
  unfolding Manager.mkdir apply remake
  mkdir-Restarts req exact small h =
      mknode-Restarts req inode_dir
        (λ now.
          ap (λ k. record (shape (node_of w req inode_dir)) { mode_bits = k })
            (mode_exact req.mode_bits exact small))
        (λ now e. ground arith) h

-- ===== src/Csd/Metadata/Ghost.antt =====
-- A refused Create of internal/csd/server/metadata_manager.go stays in the journal, and a restart carries it out.
use capper.Prelude.{
  ℕ, suc, ◌≤◌, String, Bool, true, false, not, ◌||◌, List, [], ◌∷◌, Option, none, some, ◌≡◌, refl,
  ap, ◌∙◌, keep, find, any, str_eq, eq_iff, arith,
}
use capper.Prelude.Int.{ℤ, pos}
use capper.Prelude.Action.{err}
use capper.Csd.Metadata
use capper.Csd.Metadata.{
  Inode, Store, Entry, stands_at, insert_row, max_seq, is_pending, already_exists, insert_inode,
  committed_with,
}
use capper.Csd.Metadata.Manager
use capper.Csd.Metadata.Manager.{
  World, CreateReq, UnlinkReq, node_of, append, commit, mknode, create_payload, inode_file,
}
use capper.Csd.Metadata.Replay.{apply, remake, node_from}
use capper.Csd.Metadata.Pending.{
  calm, restarted, waiting, keep_pending-committed, own_entry, applied, inodes-restarted_one,
}
use capper.Csd.Metadata.Atomic.Unlink.{unlink-done}
use capper.Csd.Metadata.Atomic.Rows.{without, last_link}
use capper.Csd.Metadata.Directory.{view}
use capper.Csd.Metadata.Directory.Rows.{Unique, any-find, any-or}
use capper.Csd.Metadata.Directory.Moves.{found_id}
use capper.Csd.Metadata.Directory.Statements.{delete-Implements}

max_seq-first :
    (volume : String) (e : Entry) (es : List Entry)
    → e.volume_id ≡ volume
    → e.seq ≤ max_seq volume (e ∷ es)
unfolding max_seq
max_seq-first volume e es v = ground (arith, eq_iff e.volume_id volume)

module _ (w : World) (req : CreateReq) (d : Store) where
  abbrev refused : Entry
  refused =
      own_entry (calm w) req.volume_id req.client_id "create" w.new_inode (create_payload req) false
        insert_inode (insert_row (node_of w req inode_file)) d

  abbrev after_refusal : Store
  after_refusal = record d { journal = refused ∷ d.journal }

  create-refused :
      (n : Inode)
      → find (stands_at req.volume_id req.parent_id req.name) d.inodes ≡ some n
      → Manager.create (calm w) req d ≡ (err already_exists, after_refusal)
  unfolding Manager.create mknode append insert_row
  create-refused n e = ground (arith, blocked)
    where
      blocked :
          any
            (λ m. str_eq m.id w.new_inode || stands_at req.volume_id req.parent_id req.name m)
            d.inodes
          ≡ true
      blocked =
          any-or (λ m. str_eq m.id w.new_inode) (stands_at req.volume_id req.parent_id req.name)
            d.inodes
          ∙ ground (arith, any-find (stands_at req.volume_id req.parent_id req.name) d.inodes)

  abbrev pub unlink_it : World → Inode → UnlinkReq
  unlink_it v n = record {
    volume_id = req.volume_id;
    inode_id = n.id;
    parent_id = req.parent_id;
    name = req.name;
    client_id = req.client_id;
  }

  module _ (v : World) (n : Inode) (one : n.link_count ≡ pos 1)
      (found : find (λ m. str_eq m.id n.id) d.inodes ≡ some n) where
    abbrev after_unlink : Store
    after_unlink = (Manager.unlink (calm v) (unlink_it v n) after_refusal).1

    -- An unlink after it leaves the entry in the journal.
    waiting-unlink :
        waiting req.volume_id d ≡ [] → waiting req.volume_id after_unlink ≡ refused ∷ []
    unfolding Manager.unlink append commit Metadata.get Metadata.delete_row
    waiting-unlink h = ground (
      arith,
      last_link n.link_count one,
      eq_iff req.volume_id req.volume_id,
      max_seq-first req.volume_id refused d.journal refl,
      keep_pending-committed req.volume_id (suc (max_seq req.volume_id (refused ∷ d.journal))) v.now
          d.journal h,
    )

    inodes-unlink : after_unlink.inodes ≡ without n.id d.inodes
    inodes-unlink = unlink-done (λ z. z) (λ k. w) v after_refusal (unlink_it v n) n found one

any-keep :
    {A : Type 0} (f g : A → Bool) (xs : List A) → any f xs ≡ false → any f (keep g xs) ≡ false
any-keep f g [] e = refl
any-keep f g (x ∷ xs) e = ground (arith, any-keep f g xs)

abbrev pub id_of : Option Inode → Option String
id_of none = none
id_of (some n) = some n.id

-- A Create that is refused because the name is taken by an inode of one link, an Unlink of that inode, and a
-- restart, none of whose statements fails, leave an inode of the refused call under the name: in rows without
-- two of one id or of one place, with nothing pending before, and for a new id that is new.
pub create_resurrects :
    (float : ℤ → ℤ) (ws : ℕ → World) (w v : World) (req : CreateReq) (d : Store) (n : Inode)
    → Unique d.inodes
    → view req.volume_id d req.parent_id req.name ≡ some n
    → n.link_count ≡ pos 1
    → any (λ m. str_eq m.id w.new_inode) d.inodes ≡ false
    → waiting req.volume_id d ≡ []
    → ((Manager.create (calm w) req d).0 ≡ err already_exists)
      × (id_of (
            view req.volume_id
              (restarted float ws req.volume_id
                (Manager.unlink
                  (calm v)
                  (unlink_it w req d v n)
                  (Manager.create (calm w) req d).1).1)
              req.parent_id
              req.name)
          ≡ some w.new_inode)
unfolding apply remake insert_row
create_resurrects float ws w v req d n u e one fresh h = (
  ap (λ r. r.0) (create-refused w req d n e),
  ap
        (λ r. id_of (
          view req.volume_id
            (restarted float ws req.volume_id
              (Manager.unlink (calm v) (unlink_it w req d v n) r.1).1)
            req.parent_id req.name))
        (create-refused w req d n e)
      ∙ ap (λ rows. id_of (find here rows)) remade
      ∙ ground (
        arith,
        eq_iff req.volume_id req.volume_id,
        eq_iff req.parent_id req.parent_id,
        eq_iff req.name req.name,
      ),
)
  where
    here : Inode → Bool
    here = stands_at req.volume_id req.parent_id req.name

    found : find (λ m. str_eq m.id n.id) d.inodes ≡ some n
    found = found_id req.volume_id req.parent_id req.name n d.inodes u e

    new : Inode
    new = node_from float (ws (refused w req d).seq).now (refused w req d) inode_file

    free : any (λ m. str_eq m.id w.new_inode || here m) (without n.id d.inodes) ≡ false
    free =
        any-or (λ m. str_eq m.id w.new_inode) here (without n.id d.inodes)
        ∙ ground (
          arith,
          any-keep (λ m. str_eq m.id w.new_inode) (λ m. not (str_eq m.id n.id)) d.inodes fresh,
          any-find here (without n.id d.inodes),
          (delete-Implements req.volume_id d.inodes u req.parent_id req.name n e).0 req.parent_id
              req.name,
          eq_iff req.parent_id req.parent_id,
          eq_iff req.name req.name,
        )

    remade :
        (restarted float ws req.volume_id (after_unlink w req d v n one found)).inodes
        ≡ new ∷ without n.id d.inodes
    remade =
        inodes-restarted_one float ws req.volume_id (after_unlink w req d v n one found)
          (refused w req d) refl (waiting-unlink w req d v n one found h)
        ∙ applies (after_unlink w req d v n one found)
        ∙ ap (λ rows. applied rows (insert_row new rows)) (inodes-unlink w req d v n one found)
        ∙ rw free refl
      where
        applies :
            (s : Store)
            → (apply float (calm (ws (refused w req d).seq)) (refused w req d) s).1.inodes
              ≡ applied s.inodes (insert_row new s.inodes)
        applies s = ground arith

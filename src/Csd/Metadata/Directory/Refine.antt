-- ===== src/Csd/Metadata/Directory/Refine.antt =====
-- The metadata manager of internal/csd/server/metadata_manager.go implements a directory.
use capper.Prelude.{
  String, true, false, List, [], ◌∷◌, Option, none, some, ◌≡◌, refl, ap, ◌∙◌, sym, subst, any,
  str_eq, eq_iff, arith, find-All, Bool-cases, inl, inr,
}
use mathlib.Core.Path.{fun_ext}
use capper.Prelude.Int.{pos}
use capper.Csd.Metadata.{Inode, Store, stands_at}
use capper.Csd.Metadata.Manager
use capper.Csd.Metadata.Manager.{World, CreateReq, mknode, node_of, inode_file, inode_dir}
use capper.Csd.Metadata.Pending.{calm}
use capper.Csd.Metadata.Atomic.Make.{mknode-done}
use capper.Csd.Metadata.Atomic.Rename.{rename-done}
use capper.Csd.Metadata.Atomic.Unlink.{unlink-done}
use capper.Csd.Metadata.Directory.{
  view, same_place, put, entered, transferred, promised, Command, create, mkdir, remove, rename,
  unlink_found, rename_found, carried_out, IsReady, AllReady, run, run_promised,
}
use capper.Csd.Metadata.Directory.Rows.{Unique}
use capper.Csd.Metadata.Directory.Statements.{
  Implements, insert-Implements, delete-Implements, move-Implements, found,
}

module _ (w : World) (volume : String) (d : Store) (u : Unique d.inodes) where
  mknode-Implements :
      (req : CreateReq) (t : String)
      → req.volume_id ≡ volume
      → any (λ m. str_eq m.id w.new_inode) d.inodes ≡ false
      → Implements volume
          (mknode (calm w) req t d).1.inodes
          (entered (node_of w req t) (view volume d req.parent_id req.name) (view volume d))
  mknode-Implements req t v fresh =
      subst
        (λ rows.
          Implements volume rows
            (entered (node_of w req t) (view volume d req.parent_id req.name) (view volume d)))
        (sym (mknode-done w d req t))
        (insert-Implements volume d.inodes u (node_of w req t) v fresh)

  unlink-Implements :
      (parent name : String) (o : Option Inode)
      → view volume d parent name ≡ o
      → IsReady w volume (remove parent name) d
      → Implements volume
          (unlink_found (calm w) volume parent name o d).inodes
          (put parent name none (view volume d))
  unlink-Implements parent name none e r = ((λ a b. missing a b), u)
    where
      missing : (a b : String) → view volume d a b ≡ put parent name none (view volume d) a b
      missing a b = elim (Bool-cases (same_place parent name a b)) [
        | inl s ↦
            let p : parent ≡ a = (eq_iff parent a).0 (ground (arith, s)) in
            let q : name ≡ b = (eq_iff name b).0 (ground (arith, s)) in
            ap (λ x. view volume d x b) (sym p)
            ∙ ap (λ y. view volume d parent y) (sym q)
            ∙ e
            ∙ rw s refl
        | inr s ↦ rw s refl
      ]
  unlink-Implements parent name (some n) e r =
      subst (λ rows. Implements volume rows (put parent name none (view volume d)))
        (sym (
          unlink-done (λ z. z) (λ k. w) w d _ n (found volume d.inodes u parent name n e)
            (one (find-All (stands_at volume parent name) _ d.inodes n r e))))
        (delete-Implements volume d.inodes u parent name n e)
    where
      one :
          (stands_at volume parent name n ≡ true → n.link_count ≡ pos 1)
            × (stands_at volume parent name n ≡ true)
          → n.link_count ≡ pos 1
      one p = p.0 p.1

  rename-Implements :
      (parent name parent' name' : String) (o : Option Inode)
      → view volume d parent name ≡ o
      → Implements volume
          (rename_found (calm w) volume parent name parent' name' o d).inodes
          (transferred parent name parent' name' o (view volume d))
  rename-Implements parent name parent' name' none e = ((λ a b. refl), u)
  rename-Implements parent name parent' name' (some n) e =
      subst
        (λ rows.
          Implements volume rows (transferred parent name parent' name' (some n) (view volume d)))
        (sym (rename-done w d _)) (move-Implements volume d.inodes u parent name parent' name' n e)

carried_out-Implements :
    (w : World) (volume : String) (c : Command) (d : Store)
    → Unique d.inodes
    → IsReady w volume c d
    → Implements volume (carried_out w volume c d).inodes (promised w c (view volume d))
unfolding Manager.create Manager.mkdir
carried_out-Implements w volume (create req) d u r =
    mknode-Implements w volume d u req inode_file r.0 r.1
carried_out-Implements w volume (mkdir req) d u r =
    mknode-Implements w volume d u req inode_dir r.0 r.1
carried_out-Implements w volume (remove parent name) d u r =
    unlink-Implements w volume d u parent name (view volume d parent name) refl r
carried_out-Implements w volume (rename parent name parent' name') d u r =
    rename-Implements w volume d u parent name parent' name' (view volume d parent name) refl

-- On rows without two of one id or of one place, what Lookup answers after commands of which no statement fails is
-- what the same commands make of the directory that it answered before: a name is entered if it is free, removed,
-- and transferred if no other inode has the new one; and the rows stay without two of one id or of one place.
-- New ids are new, and what is removed has one link.
pub run-promised :
    (volume : String) (cs : List (World × Command)) (d : Store)
    → Unique d.inodes
    → AllReady volume cs d
    → (view volume (run volume cs d) ≡ run_promised cs (view volume d))
      × Unique (run volume cs d).inodes
run-promised volume [] d u r = (refl, u)
run-promised volume ((w, c) ∷ cs) d u r =
    let now = carried_out-Implements w volume c d u r.0 in
    let rest = run-promised volume cs (carried_out w volume c d) now.1 r.1 in
    (rest.0 ∙ ap (run_promised cs) (fun_ext (λ a. fun_ext (λ b. now.0 a b))), rest.1)

-- ===== src/Csd/Metadata/Directory.antt =====
-- What the calls of internal/csd/server/metadata_manager.go promise: a volume is a function from a parent and a
-- name to an inode. A command names what it is about, is looked up, and calls the manager by the inode's id.
pub mod Rows
pub mod Moves
pub mod Views
pub mod Statements
pub mod Refine
use capper.Prelude.{
  ℕ, String, Bool, true, false, not, ◌&&◌, List, [], ◌∷◌, Option, none, some, ◌≡◌, find, any,
  str_eq, All, if◌then◌else◌,
}
use capper.Prelude.Int.{pos}
use capper.Prelude.Action.{Result, ok, err}
use capper.Csd.Metadata.{Inode, Store, stands_at}
use capper.Csd.Metadata.Manager
use capper.Csd.Metadata.Manager.{World, CreateReq, inode_file, inode_dir, node_of}
use capper.Csd.Metadata.Pending.{calm}

abbrev pub Directory : Type 0
Directory = String → String → Option Inode

-- What Lookup answers.
abbrev pub view : String → Store → Directory
view volume d parent name = find (stands_at volume parent name) d.inodes

abbrev pub same_place : String → String → String → String → Bool
same_place parent name a b = str_eq parent a && str_eq name b

abbrev pub put : String → String → Option Inode → Directory → Directory
put parent name o dir a b = if same_place parent name a b then o else dir a b

-- A name is given once.
abbrev pub entered : Inode → Option Inode → Directory → Directory
entered n (some k) dir = dir
entered n none dir = put n.parent_id n.name (some n) dir

abbrev pub is_other : Inode → Option Inode → Bool
is_other n none = false
is_other n (some k) = not (str_eq k.id n.id)

-- An inode goes to a name that no other has.
abbrev pub transferred : String → String → String → String → Option Inode → Directory → Directory
transferred parent name parent' name' none dir = dir
transferred parent name parent' name' (some n) dir =
    if is_other n (dir parent' name')
    then dir
    else put parent' name' (some (record n { parent_id = parent'; name = name' }))
        (put parent name none dir)

pub data Command : Type 0 where
  create mkdir : CreateReq → Command
  remove : String → String → Command
  rename : String → String → String → String → Command

-- The command on the abstract directory; `w` gives the clock and the new id.
abbrev pub promised : World → Command → Directory → Directory
promised w (create req) dir = entered (node_of w req inode_file) (dir req.parent_id req.name) dir
promised w (mkdir req) dir = entered (node_of w req inode_dir) (dir req.parent_id req.name) dir
promised w (remove parent name) dir = put parent name none dir
promised w (rename parent name parent' name') dir =
    transferred parent name parent' name' (dir parent name) dir

abbrev pub unlink_found : World → String → String → String → Option Inode → Store → Store
unlink_found w volume parent name none d = d
unlink_found w volume parent name (some n) d =
    (Manager.unlink w
      (record {
        volume_id = volume;
        inode_id = n.id;
        parent_id = parent;
        name = name;
        client_id = "";
      })
      d).1

abbrev pub rename_found :
    World → String → String → String → String → String → Option Inode → Store → Store
rename_found w volume parent name parent' name' none d = d
rename_found w volume parent name parent' name' (some n) d =
    (Manager.rename w
      (record {
        volume_id = volume;
        inode_id = n.id;
        old_parent_id = parent;
        old_name = name;
        new_parent_id = parent';
        new_name = name';
        client_id = "";
      })
      d).1

-- The command on the tables, no statement failing.
abbrev pub carried_out : World → String → Command → Store → Store
carried_out w volume (create req) d = (Manager.create (calm w) req d).1
carried_out w volume (mkdir req) d = (Manager.mkdir (calm w) req d).1
carried_out w volume (remove parent name) d =
    unlink_found (calm w) volume parent name (view volume d parent name) d
carried_out w volume (rename parent name parent' name') d =
    rename_found (calm w) volume parent name parent' name' (view volume d parent name) d

-- A new id is new, and an inode to be removed has one link.
abbrev pub IsReady : World → String → Command → Store → Type 0
IsReady w volume (create req) d =
    (req.volume_id ≡ volume) × (any (λ m. str_eq m.id w.new_inode) d.inodes ≡ false)
IsReady w volume (mkdir req) d =
    (req.volume_id ≡ volume) × (any (λ m. str_eq m.id w.new_inode) d.inodes ≡ false)
IsReady w volume (remove parent name) d =
    All (λ n. stands_at volume parent name n ≡ true → n.link_count ≡ pos 1) d.inodes
IsReady w volume (rename parent name parent' name') d = Unit {0}

abbrev pub run : String → List (World × Command) → Store → Store
run volume [] d = d
run volume ((w, c) ∷ cs) d = run volume cs (carried_out w volume c d)

abbrev pub run_promised : List (World × Command) → Directory → Directory
run_promised [] dir = dir
run_promised ((w, c) ∷ cs) dir = run_promised cs (promised w c dir)

abbrev pub AllReady : String → List (World × Command) → Store → Type 0
AllReady volume [] d = Unit {0}
AllReady volume ((w, c) ∷ cs) d =
    IsReady w volume c d × AllReady volume cs (carried_out w volume c d)

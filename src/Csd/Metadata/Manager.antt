-- ===== src/Csd/Metadata/Manager.antt =====
-- The calls of internal/csd/server/metadata_manager.go, and Append and Commit of journal_manager.go beside it.
use capper.Prelude.{ℕ, suc, String, false, List, [], ◌∷◌, map, str_eq, if◌then◌else◌}
use capper.Prelude.Int.{ℤ, pos, sub64, leb_ℤ}
use capper.Prelude.Action.{M, Result, ok, err, ◌>>=◌, ◌>>◌, pure, ask, statement}
use Prim.Native.String.{◌++◌ as str_append}
use capper.Csd.Metadata.{
  Inode, Value, label, number, Entry, Store, Faults, Error, failed, not_found, next_seq,
  append_entry, commit_entry, max_seq, committed_with, get, find_root, insert, update, delete, move,
}

-- What a call takes from outside: the clock, and new ids for an inode and for a journal entry.
pub record World : Type 0 where
  pub fails : Faults
  pub now : String
  pub new_inode : String
  pub new_entry : String

abbrev pub inode_file : String
inode_file = "file"

abbrev pub inode_dir : String
inode_dir = "directory"

abbrev pub entry_of : World → String → String → String → String → List (String × Value) → ℕ → Entry
entry_of w volume client operation inode payload seq = record {
  id = w.new_entry;
  volume_id = volume;
  seq = seq;
  client_id = client;
  operation = operation;
  inode_id = inode;
  payload = payload;
  committed = false;
  created_at = w.now;
  committed_at = "";
}

unfoldable pub append :
    World → String → String → String → String → List (String × Value) → M Store Error ℕ
append w volume client operation inode payload = do
  seq ← ask (w.fails next_seq) (failed next_seq) (λ d. ok (suc (max_seq volume d.journal)))
  statement (w.fails append_entry) (failed append_entry)
      (λ d. record d { journal = entry_of w volume client operation inode payload seq ∷ d.journal })
  pure seq

unfoldable pub commit : World → String → ℕ → M Store Error (Unit {0})
commit w volume seq =
    statement (w.fails commit_entry) (failed commit_entry)
      (λ d. record d { journal = map (committed_with volume seq w.now) d.journal })

abbrev pub root_of : World → String → Inode
root_of w volume = record {
  id = str_append "root-" volume;
  volume_id = volume;
  parent_id = "";
  name = "/";
  node_type = inode_dir;
  size_bytes = pos 0;
  mode_bits = 493;
  uid = 0;
  gid = 0;
  link_count = pos 2;
  version = 1;
  extent_root = "";
  inline_data = [];
  created_at = w.now;
  modified_at = w.now;
  accessed_at = w.now;
}

-- EnsureRoot, where the root is missing.
abbrev pub made : World → String → Result Error Inode × Store → Result Error Inode × Store
made w volume (ok root, d) = (ok root, d)
made w volume (err not_found, d) = (insert w.fails (root_of w volume) >> pure (root_of w volume)) d
made w volume (err e, d) = (err e, d)

unfoldable pub ensure_root : World → String → M Store Error Inode
ensure_root w volume d = made w volume (find_root w.fails volume d)

pub record CreateReq : Type 0 where
  pub volume_id : String
  pub parent_id : String
  pub name : String
  pub mode_bits : ℕ
  pub uid : ℕ
  pub gid : ℕ
  pub client_id : String

abbrev pub node_of : World → CreateReq → String → Inode
node_of w req node_type = record {
  id = w.new_inode;
  volume_id = req.volume_id;
  parent_id = req.parent_id;
  name = req.name;
  node_type = node_type;
  size_bytes = pos 0;
  mode_bits = req.mode_bits;
  uid = req.uid;
  gid = req.gid;
  link_count = pos 1;
  version = 1;
  extent_root = "";
  inline_data = [];
  created_at = w.now;
  modified_at = w.now;
  accessed_at = w.now;
}

abbrev pub create_payload : CreateReq → List (String × Value)
create_payload req =
    ("name", label req.name)
    ∷ ("parent_id", label req.parent_id)
    ∷ ("mode_bits", number (pos req.mode_bits))
    ∷ []

abbrev pub operation_of : String → String
operation_of node_type = if str_eq node_type inode_dir then "mkdir" else "create"

unfoldable pub mknode : World → CreateReq → String → M Store Error Inode
mknode w req node_type = do
  seq ←
      append w req.volume_id req.client_id (operation_of node_type) w.new_inode (create_payload req)
  insert w.fails (node_of w req node_type)
  commit w req.volume_id seq
  pure (node_of w req node_type)

unfoldable pub create : World → CreateReq → M Store Error Inode
unfolding mknode
create w req = mknode w req inode_file

unfoldable pub mkdir : World → CreateReq → M Store Error Inode
unfolding mknode
mkdir w req = mknode w req inode_dir

pub record UnlinkReq : Type 0 where
  pub volume_id : String
  pub inode_id : String
  pub parent_id : String
  pub name : String
  pub client_id : String

-- Takes a link, or the row with the last one.
abbrev pub drop_link : Faults → String → Inode → M Store Error (Unit {0})
drop_link f id n =
    let n' = record n { link_count = sub64 n.link_count (pos 1) } in
    if leb_ℤ n'.link_count (pos 0) then delete f id else update f n'

unfoldable pub unlink : World → UnlinkReq → M Store Error (Unit {0})
unlink w req = do
  n ← get w.fails req.inode_id
  seq ← append w req.volume_id req.client_id "unlink" req.inode_id (
      ("inode_id", label req.inode_id)
      ∷ ("parent_id", label req.parent_id)
      ∷ ("name", label req.name)
      ∷ [])
  drop_link w.fails req.inode_id n
  commit w req.volume_id seq

pub record RenameReq : Type 0 where
  pub volume_id : String
  pub inode_id : String
  pub old_parent_id : String
  pub old_name : String
  pub new_parent_id : String
  pub new_name : String
  pub client_id : String

unfoldable pub rename : World → RenameReq → M Store Error (Unit {0})
rename w req = do
  seq ← append w req.volume_id req.client_id "rename" req.inode_id (
      ("old_parent_id", label req.old_parent_id)
      ∷ ("old_name", label req.old_name)
      ∷ ("new_parent_id", label req.new_parent_id)
      ∷ ("new_name", label req.new_name)
      ∷ [])
  move w.fails req.inode_id req.new_parent_id req.new_name
  commit w req.volume_id seq

pub record TruncateReq : Type 0 where
  pub volume_id : String
  pub inode_id : String
  pub new_size : ℤ
  pub client_id : String

unfoldable pub truncate : World → TruncateReq → M Store Error (Unit {0})
truncate w req = do
  n ← get w.fails req.inode_id
  seq ←
      append w req.volume_id req.client_id "truncate" req.inode_id
        (("new_size", number req.new_size) ∷ [])
  update w.fails (record n { size_bytes = req.new_size; modified_at = w.now })
  commit w req.volume_id seq

-- ===== src/Csd/Metadata/Served.antt =====
-- The messages on directories and inodes: the cases of `dispatch` in internal/csd/protocol/quic.go that call the
-- metadata manager.
pub mod Blind
use capper.Prelude.{String, Bool, true, false, List, [], ◌∷◌, ℕ}
use capper.Prelude.Int.{ℤ}
use capper.Prelude.Action.{M, Result, ok, err}
use capper.Csd.Metadata.{Inode, Store, Faults, Error, not_found, get}
use capper.Csd.Metadata
use capper.Csd.Metadata.Manager
use capper.Csd.Metadata.Manager.{World, CreateReq}

pub data Message : Type 0 where
  getattr : String → Message
  lookup : String → String → Message
  readdir : String → Message
  create mkdir : String → String → ℕ → Message
  unlink : String → String → String → Message
  rename : String → String → String → String → String → Message
  truncate : String → ℤ → Message

pub data Code : Type 0 where
  code_not_found code_internal : Code

pub data Reply : Type 0 where
  inode : Inode → Reply
  entries : List Inode → Reply
  done : Reply
  refusal : Code → Reply

-- The answer of a manager's call that returns an inode, and of one that returns nothing.
abbrev pub with_inode : Result Error Inode × Store → Reply × Store
with_inode (ok n, d) = (inode n, d)
with_inode (err e, d) = (refusal code_internal, d)

abbrev pub with_nothing : Result Error (Unit {0}) × Store → Reply × Store
with_nothing (ok u, d) = (done, d)
with_nothing (err e, d) = (refusal code_internal, d)

abbrev pub with_entries : Result Error (List Inode) × Store → Reply × Store
with_entries (ok ns, d) = (entries ns, d)
with_entries (err e, d) = (refusal code_internal, d)

-- Getattr first, whose every error is "not found".
abbrev pub after_getattr :
    Result Error Inode × Store → (Inode → Store → Reply × Store) → Reply × Store
after_getattr (ok n, d) k = k n d
after_getattr (err e, d) k = (refusal code_not_found, d)

abbrev pub looked_up : Result Error Inode × Store → Reply × Store
looked_up (ok n, d) = (inode n, d)
looked_up (err not_found, d) = (refusal code_not_found, d)
looked_up (err e, d) = (refusal code_internal, d)

abbrev pub create_req : Inode → String → String → ℕ → CreateReq
create_req parent parent_id name mode = record {
  volume_id = parent.volume_id;
  parent_id = parent_id;
  name = name;
  mode_bits = mode;
  uid = 0;
  gid = 0;
  client_id = "";
}

-- `f` is for the query that precedes the manager's call.
unfoldable pub dispatch : Faults → World → Message → Store → Reply × Store
dispatch f w (getattr id) d = after_getattr (get f id d) (λ n d'. (inode n, d'))
dispatch f w (lookup parent name) d = looked_up (Metadata.lookup f "" parent name d)
dispatch f w (readdir dir) d =
    after_getattr (get f dir d)
      (λ p d'. with_entries (Metadata.children w.fails p.volume_id dir d'))
dispatch f w (create parent name mode) d =
    after_getattr (get f parent d)
      (λ p d'. with_inode (Manager.create w (create_req p parent name mode) d'))
dispatch f w (mkdir parent name mode) d =
    after_getattr (get f parent d)
      (λ p d'. with_inode (Manager.mkdir w (create_req p parent name mode) d'))
dispatch f w (unlink id parent name) d = after_getattr (get f parent d) (λ p d'. with_nothing (
    Manager.unlink w
      (record {
        volume_id = p.volume_id;
        inode_id = id;
        parent_id = parent;
        name = name;
        client_id = "";
      })
      d'))
dispatch f w (rename id old_parent old_name new_parent new_name) d =
    after_getattr (get f id d) (λ n d'. with_nothing (
      Manager.rename w
        (record {
          volume_id = n.volume_id;
          inode_id = id;
          old_parent_id = old_parent;
          old_name = old_name;
          new_parent_id = new_parent;
          new_name = new_name;
          client_id = "";
        })
        d'))
dispatch f w (truncate id size) d = after_getattr (get f id d) (λ n d'. with_nothing (
    Manager.truncate w
      (record { volume_id = n.volume_id; inode_id = id; new_size = size; client_id = "" }) d'))

-- Any messages in turn, and the tables after them.
abbrev pub serve : List (Faults × World × Message) → Store → Store
serve [] d = d
serve ((f, w, m) ∷ ms) d = serve ms (dispatch f w m d).1

-- ===== src/Csd/Metadata.antt =====
-- The tables behind the directories of a shared disk: the rows of internal/csd/types.go and the statements of
-- internal/csd/store/inodes.go and journal.go, each told whether it fails. Clocks and new ids are arguments.
pub mod Manager
pub mod Replay
pub mod Pending
pub mod Calls
pub mod Atomic
pub mod Directory
pub mod Ghost
pub mod Served
pub mod Checkpoint
mod Examples
use capper.Prelude.{
  ℕ, suc, ◌+◌, String, Bool, true, false, not, ◌&&◌, ◌||◌, List, [], ◌∷◌, Option, none, some, map,
  any, keep, find, str_eq, leb, ltb, ◌==◌, if◌then◌else◌,
}
use Prim.Native.Nat.{Ordering}
use Prim.Native.String.{compare as name_order}
use capper.Prelude.Int.{ℤ, pos}
use capper.Prelude.Action.{M, Result, ok, err, ◌>>=◌, ◌>>◌, pure, ask}

pub record Inode : Type 0 where
  pub id : String
  pub volume_id : String
  pub parent_id : String
  pub name : String
  pub node_type : String
  pub size_bytes : ℤ
  pub mode_bits : ℕ
  pub uid : ℕ
  pub gid : ℕ
  pub link_count : ℤ
  pub version : ℕ
  pub extent_root : String
  pub inline_data : List ℕ
  pub created_at : String
  pub modified_at : String
  pub accessed_at : String

-- A payload is a map from keys to JSON values.
pub data Value : Type 0 where
  label : String → Value
  number : ℤ → Value

pub record Entry : Type 0 where
  pub id : String
  pub volume_id : String
  pub seq : ℕ
  pub client_id : String
  pub operation : String
  pub inode_id : String
  pub payload : List (String × Value)
  pub committed : Bool
  pub created_at : String
  pub committed_at : String

-- The journal, newest entry first.
pub record Store : Type 0 where
  pub inodes : List Inode
  pub journal : List Entry

pub data Statement : Type 0 where
  get_root get_inode lookup_inode list_children insert_inode update_inode delete_inode move_inode :
      Statement
  next_seq append_entry commit_entry list_pending greatest_seq truncate_journal : Statement

abbrev pub Faults : Type 0
Faults = Statement → Bool

pub data Error : Type 0 where
  failed : Statement → Error
  not_found already_exists not_unique unknown_operation : Error

abbrev pub row_of : {A : Type 0} → Option A → Result Error A
row_of none = err not_found
row_of (some a) = ok a

abbrev pub with_inodes : Store → Result Error (List Inode) → Result Error (Unit {0}) × Store
with_inodes d (err e) = (err e, d)
with_inodes d (ok rows) = (ok tt, record d { inodes = rows })

-- A statement on the inodes: one that fails changes nothing.
abbrev pub on_inodes :
    Bool → Statement → (List Inode → Result Error (List Inode)) → M Store Error (Unit {0})
on_inodes true s change d = (err (failed s), d)
on_inodes false s change d = with_inodes d (change d.inodes)

-- UNIQUE(volume_id, parent_id, name).
abbrev pub stands_at : String → String → String → Inode → Bool
stands_at volume parent name m =
    str_eq m.volume_id volume && (str_eq m.parent_id parent && str_eq m.name name)

unfoldable pub insert_row : Inode → List Inode → Result Error (List Inode)
insert_row n rows =
    if any (λ m. str_eq m.id n.id || stands_at n.volume_id n.parent_id n.name m) rows
    then err already_exists
    else ok (n ∷ rows)

-- The columns that the statement sets. The place of `n` is that of the row, so no other row stands there.
abbrev pub updated : Inode → Inode → Inode
updated n m =
    if str_eq m.id n.id
    then record n { volume_id = m.volume_id; version = m.version + 1; created_at = m.created_at }
    else m

unfoldable pub update_row : Inode → List Inode → Result Error (List Inode)
update_row n rows = ok (map (updated n) rows)

unfoldable pub delete_row : String → List Inode → Result Error (List Inode)
delete_row id rows = ok (keep (λ m. not (str_eq m.id id)) rows)

abbrev pub moved : String → String → String → Inode → Inode
moved id parent name m = if str_eq m.id id then record m { parent_id = parent; name = name } else m

-- Another row stands where the row is moved to.
unfoldable pub move_blocked : String → String → String → List Inode → Bool
move_blocked id parent name rows =
    any
      (λ m.
        str_eq m.id id
        && any (λ k. not (str_eq k.id id) && stands_at m.volume_id parent name k) rows)
      rows

unfoldable pub move_row : String → String → String → List Inode → Result Error (List Inode)
move_row id parent name rows =
    if move_blocked id parent name rows
    then err not_unique
    else ok (map (moved id parent name) rows)

-- The greatest sequence number of a volume, 0 where it has none.
unfoldable pub max_seq : String → List Entry → ℕ
max_seq volume [] = 0
max_seq volume (e ∷ rows) =
    let rest = max_seq volume rows in
    if str_eq e.volume_id volume && ltb rest e.seq then e.seq else rest

abbrev pub is_pending : String → Entry → Bool
is_pending volume e = str_eq e.volume_id volume && not e.committed

-- ORDER BY seq.
unfoldable pub place : Entry → List Entry → List Entry
place e [] = e ∷ []
place e (x ∷ xs) = let rest = place e xs in if leb e.seq x.seq then e ∷ x ∷ xs else x ∷ rest

unfoldable pub by_seq : List Entry → List Entry
unfolding place
by_seq [] = []
by_seq (e ∷ es) = place e (by_seq es)

abbrev pub committed_with : String → ℕ → String → Entry → Entry
committed_with volume seq now e =
    if str_eq e.volume_id volume && (e.seq == seq)
    then record e { committed = true; committed_at = now }
    else e

-- ORDER BY name.
unfoldable pub place_name : Inode → List Inode → List Inode
place_name n [] = n ∷ []
place_name n (m ∷ ms) =
    let rest = place_name n ms in
    elim (name_order n.name m.name) [ Ordering.gt ↦ m ∷ rest | _ ↦ n ∷ m ∷ ms ]

unfoldable pub by_name : List Inode → List Inode
unfolding place_name
by_name [] = []
by_name (n ∷ ns) = place_name n (by_name ns)

module _ (f : Faults) where
  unfoldable pub get : String → M Store Error Inode
  get id = ask (f get_inode) (failed get_inode) (λ d. row_of (find (λ n. str_eq n.id id) d.inodes))

  unfoldable pub find_root : String → M Store Error Inode
  find_root volume =
      ask (f get_root) (failed get_root) (λ d. row_of (find (stands_at volume "" "/") d.inodes))

  unfoldable pub lookup : String → String → String → M Store Error Inode
  lookup volume parent name =
      ask (f lookup_inode) (failed lookup_inode)
        (λ d. row_of (find (stands_at volume parent name) d.inodes))

  unfoldable pub children : String → String → M Store Error (List Inode)
  unfolding by_name
  children volume parent = ask (f list_children) (failed list_children) (λ d.
      ok (by_name (keep (λ n. str_eq n.volume_id volume && str_eq n.parent_id parent) d.inodes)))

  abbrev pub insert : Inode → M Store Error (Unit {0})
  insert n = on_inodes (f insert_inode) insert_inode (insert_row n)

  abbrev pub update : Inode → M Store Error (Unit {0})
  update n = on_inodes (f update_inode) update_inode (update_row n)

  abbrev pub delete : String → M Store Error (Unit {0})
  delete id = on_inodes (f delete_inode) delete_inode (delete_row id)

  abbrev pub move : String → String → String → M Store Error (Unit {0})
  move id parent name = on_inodes (f move_inode) move_inode (move_row id parent name)

  unfoldable pub pending : String → M Store Error (List Entry)
  pending volume =
      ask (f list_pending) (failed list_pending)
        (λ d. ok (by_seq (keep (is_pending volume) d.journal)))

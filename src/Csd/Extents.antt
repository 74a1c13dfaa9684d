-- ===== src/Csd/Extents.antt =====
-- The bytes of a file on the shared disk: the rows of internal/csd/store (inodes, extents, journal, used
-- bytes), the objects of the backend, and the statements on them that Write and Read of
-- internal/csd/server/extent_manager.go make. The Write and Read here are a reference on numbers without
-- bound; Wrapped has them on int64. `key` prints an inode's id and an offset.
pub mod Overlay
pub mod ReadBack
pub mod RoundTrip
pub mod Inline
pub mod Pieces
pub mod Wrapped
pub mod Examples
use capper.Prelude.{
  ℕ, zero, suc, ◌+◌, ◌-◌, ◌≤◌, String, Bool, true, false, not, ◌&&◌, ◌||◌, List, [], ◌∷◌, ◌++◌,
  Option, none, some, map, keep, find, length, take, drop, str_eq, leb, ltb, ◌==◌, min,
  if◌then◌else◌,
}
use capper.Prelude.Action.{M, Result, ok, err, ◌>>=◌, ◌>>◌, pure, statement, ask}

abbrev pub extent_size : ℕ
extent_size = 4194304

abbrev pub inline_max_bytes : ℕ
inline_max_bytes = 16384

pub record Inode : Type 0 where
  pub id : String
  pub size_bytes : ℕ
  pub inline_data : List ℕ

pub record Extent : Type 0 where
  pub inode_id : String
  pub offset_bytes : ℕ
  pub length_bytes : ℕ
  pub object_key : String

pub record JournalEntry : Type 0 where
  pub volume_id : String
  pub seq : ℕ
  pub inode_id : String
  pub committed : Bool

pub record Object : Type 0 where
  pub volume_id : String
  pub name : String
  pub bytes : List ℕ

pub record Disk : Type 0 where
  pub inodes : List Inode
  pub extents : List Extent
  pub journal : List JournalEntry
  pub objects : List Object
  pub used : List (String × ℕ)

pub data Statement : Type 0 where
  get_inode update_inode update_used list_extents : Statement
  put_extent append_entry upsert_extent commit_entry : ℕ → Statement
  get_extent : String → Statement

pub data Error : Type 0 where
  failed : Statement → Error
  not_found panicked : Error

abbrev pub Faults : Type 0
Faults = Statement → Bool

pub record WriteReq : Type 0 where
  pub volume_id : String
  pub inode_id : String
  pub offset : ℕ
  pub bytes : List ℕ

pub record ReadReq : Type 0 where
  pub volume_id : String
  pub inode_id : String
  pub offset : ℕ
  pub length : ℕ

abbrev pub row_of : {A : Type 0} → Option A → Result Error A
row_of none = err not_found
row_of (some a) = ok a

-- The greatest sequence number of a volume, 0 where it has none.
max_seq : String → List JournalEntry → ℕ
max_seq volume [] = 0
max_seq volume (e ∷ rows) =
    let rest = max_seq volume rows in
    if str_eq e.volume_id volume && ltb rest e.seq then e.seq else rest

abbrev pub add_used : String → ℕ → List (String × ℕ) → List (String × ℕ)
add_used volume n = map (λ r. if str_eq r.0 volume then (r.0, r.1 + n) else r)

module _ (key : String → ℕ → String) (f : Faults) where
  abbrev pub exec : Statement → (Disk → Disk) → M Disk Error (Unit {0})
  exec s change = statement (f s) (failed s) change

  pub get : String → M Disk Error Inode
  get id = ask (f get_inode) (failed get_inode) (λ d. row_of (find (λ n. str_eq n.id id) d.inodes))

  -- Append, with its new sequence number.
  pub append : ℕ → String → String → M Disk Error ℕ
  append offset volume inode = do
    seq ←
        ask (f (append_entry offset)) (failed (append_entry offset))
          (λ d. ok (suc (max_seq volume d.journal)))
    exec (append_entry offset) (λ d. record d {
      journal =
          record { volume_id = volume; seq = seq; inode_id = inode; committed = false } ∷ d.journal;
    })
    pure seq

  pub commit : ℕ → String → ℕ → M Disk Error (Unit {0})
  commit offset volume seq = exec (commit_entry offset) (λ d. record d {
    journal =
        map
          (λ e.
            if str_eq e.volume_id volume && (e.seq == seq)
            then record e { committed = true }
            else e)
          d.journal;
  })

  pub update : Inode → M Disk Error (Unit {0})
  update n =
      exec update_inode
        (λ d. record d { inodes = map (λ m. if str_eq m.id n.id then n else m) d.inodes })

  pub charge : String → ℕ → M Disk Error (Unit {0})
  charge volume n = exec update_used (λ d. record d { used = add_used volume n d.used })

  -- One extent: its object, its journal entry and its row.
  pub put : String → String → ℕ → List ℕ → M Disk Error (Unit {0})
  put volume inode offset chunk = do
    exec (put_extent offset) (λ d. record d {
      objects = record { volume_id = volume; name = key inode offset; bytes = chunk } ∷ d.objects;
    })
    seq ← append offset volume inode
    exec (upsert_extent offset) (λ d. record d {
      extents =
          d.extents
          ++ record {
            inode_id = inode;
            offset_bytes = offset;
            length_bytes = length chunk;
            object_key = key inode offset;
          }
            ∷ [];
    })
    commit offset volume seq

  -- The loop over the chunks, with a bound on its rounds.
  pub put_all : ℕ → String → String → ℕ → List ℕ → M Disk Error (Unit {0})
  put_all rounds volume inode offset [] = pure tt
  put_all zero volume inode offset (b ∷ bytes) = pure tt
  put_all (suc rounds) volume inode offset (b ∷ bytes) =
      put volume inode offset (take extent_size (b ∷ bytes))
      >> put_all rounds volume inode (offset + length (take extent_size (b ∷ bytes)))
          (drop extent_size (b ∷ bytes))

  pub is_inline : WriteReq → Bool
  is_inline req = (req.offset == 0) && ltb (length req.bytes) inline_max_bytes

  pub write_inline : WriteReq → Inode → M Disk Error (Unit {0})
  write_inline req n = do
    seq ← append req.offset req.volume_id req.inode_id
    update (record n { inline_data = req.bytes; size_bytes = length req.bytes })
    commit req.offset req.volume_id seq
    charge req.volume_id (length req.bytes)

  pub write_extents : WriteReq → Inode → M Disk Error (Unit {0})
  write_extents req n = do
    put_all (length req.bytes) req.volume_id req.inode_id req.offset req.bytes
    update (record n {
      size_bytes =
          if ltb n.size_bytes (req.offset + length req.bytes)
          then req.offset + length req.bytes
          else n.size_bytes;
      inline_data = [];
    })
    charge req.volume_id (length req.bytes)

  pub write : WriteReq → M Disk Error (Unit {0})
  unfolding is_inline write_inline write_extents
  write req d =
      if length req.bytes == 0
      then (ok tt, d)
      else (get req.inode_id
            >>= (λ n d1. if is_inline req then write_inline req n d1 else write_extents req n d1))
          d

-- ORDER BY offset_bytes.
pub place : Extent → List Extent → List Extent
place e [] = e ∷ []
place e (x ∷ xs) =
    let rest = place e xs in if leb e.offset_bytes x.offset_bytes then e ∷ x ∷ xs else x ∷ rest

pub by_offset : List Extent → List Extent
unfolding place
by_offset [] = []
by_offset (e ∷ es) = place e (by_offset es)

-- `copy` to the slice that starts at an index.
pub copy_at : {A : Type 0} → ℕ → List A → List A → List A
copy_at at src [] = []
copy_at zero [] (d ∷ dst) = d ∷ dst
copy_at zero (s ∷ src) (d ∷ dst) = s ∷ copy_at zero src dst
copy_at (suc at) src (d ∷ dst) = d ∷ copy_at at src dst

pub zeroes : ℕ → List ℕ
zeroes zero = []
zeroes (suc n) = 0 ∷ zeroes n

-- What one extent adds to the result; `-` stops at 0 where the code tests for less than 0.
pub add_extent : ReadReq → Extent → List ℕ → List ℕ → List ℕ
unfolding copy_at
add_extent req e bytes result =
    let from = req.offset - e.offset_bytes in
    let to = e.offset_bytes + from - req.offset in
    copy_at to (take (min (length bytes - from) (length result - to)) (drop from bytes)) result

abbrev pub bytes_of : Option Object → Option (List ℕ)
bytes_of none = none
bytes_of (some o) = some o.bytes

abbrev pub object_of : String → String → List Object → Option (List ℕ)
object_of volume name objects =
    bytes_of (find (λ o. str_eq o.volume_id volume && str_eq o.name name) objects)

module _ (f : Faults) where
  pub in_range : ReadReq → Extent → Bool
  in_range req e =
      str_eq e.inode_id req.inode_id
      && (ltb e.offset_bytes (req.offset + req.length)
          && ltb req.offset (e.offset_bytes + e.length_bytes))

  pub read_all : ReadReq → List Extent → List ℕ → M Disk Error (List ℕ)
  unfolding add_extent
  read_all req [] result = pure result
  read_all req (e ∷ es) result = do
    bytes ←
        ask (f (get_extent e.object_key)) (failed (get_extent e.object_key))
          (λ d. row_of (object_of req.volume_id e.object_key d.objects))
    read_all req es (add_extent req e bytes result)

  pub read_inline : ReadReq → List ℕ → List ℕ
  read_inline req bytes =
      if leb (length bytes) req.offset
      then []
      else drop req.offset (take (min (req.offset + req.length) (length bytes)) bytes)

  -- Cut to the size of the inode.
  pub cut : ReadReq → Inode → List ℕ → List ℕ
  cut req n result =
      let available = n.size_bytes - req.offset in
      if ltb available req.length then take available result else result

  pub from_extents : ReadReq → Inode → M Disk Error (List ℕ)
  unfolding by_offset in_range read_all zeroes cut
  from_extents req n = do
    rows ←
        ask (f list_extents) (failed list_extents)
          (λ d. ok (by_offset (keep (in_range req) d.extents)))
    result ← read_all req rows (zeroes req.length)
    pure (cut req n result)

  pub read : ReadReq → M Disk Error (List ℕ)
  unfolding from_extents read_inline
  read req = do
    n ←
        ask (f get_inode) (failed get_inode)
          (λ d. row_of (find (λ n. str_eq n.id req.inode_id) d.inodes))
    if not (length n.inline_data == 0)
        then pure (read_inline req n.inline_data)
        else from_extents req n

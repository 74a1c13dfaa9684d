-- ===== src/Csd/Extents/Wrapped.antt =====
-- Write and Read of internal/csd/server/extent_manager.go with Go's int64. Offsets, sizes and lengths are the
-- bit patterns of 64-bit integers, so that a number below 2 ^ 63 is itself; sums and differences wrap, orders
-- are those of the signed numbers, and a slice out of range panics. A sum that SQLite forms does not wrap.
pub mod Plain
pub mod Copy
pub mod Read
pub mod Files
use capper.Prelude.{
  ℕ, zero, suc, ◌+◌, ◌-◌, ◌%◌, String, Bool, true, false, not, ◌&&◌, ◌||◌, List, [], ◌∷◌, Option,
  none, some, keep, find, length, take, drop, str_eq, leb, ltb, ◌==◌, if◌then◌else◌, ◌>>=◌ as ◌>>?◌,
}
use capper.Prelude.Action.{M, Result, ok, err, ◌>>=◌, ◌>>◌, pure, ask}
use capper.Csd.Extents
use capper.Csd.Extents.{
  Inode, Extent, Disk, Error, Faults, WriteReq, ReadReq, extent_size, get, put, update, charge,
  is_inline, write_inline, row_of, object_of, copy_at, zeroes, failed, panicked, get_inode,
  list_extents, get_extent,
}

unfoldable pub plus : ℕ → ℕ → ℕ
plus a b = (a + b) % 18_446_744_073_709_551_616

unfoldable pub minus : ℕ → ℕ → ℕ
minus a b = (a + (18_446_744_073_709_551_616 - b)) % 18_446_744_073_709_551_616

-- The signed number of a pattern, and 2 ^ 63 more.
unfoldable pub raised : ℕ → ℕ
unfolding plus
raised a = plus a 9_223_372_036_854_775_808

unfoldable pub less : ℕ → ℕ → Bool
unfolding raised
less a b = ltb (raised a) (raised b)

unfoldable pub negative : ℕ → Bool
negative a = leb 9_223_372_036_854_775_808 a

-- xs[from:to].
unfoldable pub slice : ℕ → ℕ → List ℕ → Option (List ℕ)
slice from to xs =
    if negative from || (less to from || less (length xs) to)
    then none
    else some (drop from (take to xs))

module _ (key : String → ℕ → String) (f : Faults) where
  -- The loop over the chunks, with a bound on its rounds.
  unfoldable pub put_all : ℕ → String → String → ℕ → List ℕ → M Disk Error (Unit {0})
  put_all rounds volume inode offset [] = pure tt
  put_all zero volume inode offset (b ∷ bytes) = pure tt
  put_all (suc rounds) volume inode offset (b ∷ bytes) =
      put key f volume inode offset (take extent_size (b ∷ bytes))
      >> put_all rounds volume inode (plus offset (length (take extent_size (b ∷ bytes))))
          (drop extent_size (b ∷ bytes))

  unfoldable pub write_extents : WriteReq → Inode → M Disk Error (Unit {0})
  unfolding put_all
  write_extents req n = do
    put_all (length req.bytes) req.volume_id req.inode_id req.offset req.bytes
    update key f (record n {
      size_bytes =
          if less n.size_bytes (plus req.offset (length req.bytes))
          then plus req.offset (length req.bytes)
          else n.size_bytes;
      inline_data = [];
    })
    charge key f req.volume_id (length req.bytes)

  unfoldable pub write : WriteReq → M Disk Error (Unit {0})
  unfolding write_extents
  write req d =
      if length req.bytes == 0
      then (ok tt, d)
      else (get key f req.inode_id >>= (λ n d1.
            if is_inline key f req then write_inline key f req n d1 else write_extents req n d1))
          d

-- ORDER BY offset_bytes.
unfoldable pub place : Extent → List Extent → List Extent
place e [] = e ∷ []
place e (x ∷ xs) =
    let rest = place e xs in if less x.offset_bytes e.offset_bytes then x ∷ rest else e ∷ x ∷ xs

unfoldable pub by_offset : List Extent → List Extent
unfolding place
by_offset [] = []
by_offset (e ∷ es) = place e (by_offset es)

-- The index from which the bytes of an extent are taken, the one at which they go, and their number.
abbrev pub src_start : ReadReq → Extent → ℕ
src_start req e =
    if negative (minus req.offset e.offset_bytes) then 0 else minus req.offset e.offset_bytes

abbrev pub dst_start : ReadReq → Extent → ℕ
dst_start req e = minus (plus e.offset_bytes (src_start req e)) req.offset

abbrev pub copy_len : ℕ → ℕ → ℕ → ℕ → ℕ
copy_len size from room to =
    if less room (plus to (minus size from)) then minus room to else minus size from

-- `none` is a panic.
unfoldable pub copied : ℕ → ℕ → ℕ → List ℕ → List ℕ → Option (List ℕ)
unfolding slice
copied n from to bytes result =
    if less 0 n
    then (slice to (plus to n) result
        >>? (λ _. slice from (plus from n) bytes >>? (λ src. some (copy_at to src result))))
    else some result

unfoldable pub add_extent : ReadReq → Extent → List ℕ → List ℕ → Option (List ℕ)
unfolding copied
add_extent req e bytes result =
    let from = src_start req e in
    let to = dst_start req e in
    copied (copy_len (length bytes) from (length result) to) from to bytes result

abbrev pub or_panic : Option (List ℕ) → M Disk Error (List ℕ)
or_panic none d = (err panicked, d)
or_panic (some bytes) d = (ok bytes, d)

module _ (f : Faults) where
  unfoldable pub in_range : ReadReq → Extent → Bool
  in_range req e =
      str_eq e.inode_id req.inode_id
      && (less e.offset_bytes (plus req.offset req.length)
          && ltb (raised req.offset) (raised e.offset_bytes + e.length_bytes))

  unfoldable pub read_all : ReadReq → List Extent → List ℕ → M Disk Error (List ℕ)
  unfolding add_extent
  read_all req [] result = pure result
  read_all req (e ∷ es) result = do
    bytes ←
        ask (f (get_extent e.object_key)) (failed (get_extent e.object_key))
          (λ d. row_of (object_of req.volume_id e.object_key d.objects))
    next ← or_panic (add_extent req e bytes result)
    read_all req es next

  abbrev pub end_of : ReadReq → List ℕ → ℕ
  end_of req bytes =
      if less (length bytes) (plus req.offset req.length)
      then length bytes
      else plus req.offset req.length

  unfoldable pub read_inline : ReadReq → List ℕ → M Disk Error (List ℕ)
  unfolding slice
  read_inline req bytes =
      if not (less req.offset (length bytes))
      then pure []
      else or_panic (slice req.offset (end_of req bytes) bytes)

  -- Cut to the size of the inode.
  unfoldable pub cut : ReadReq → Inode → List ℕ → List ℕ
  cut req n result =
      let room = minus n.size_bytes req.offset in
      let available = if negative room then 0 else room in
      if less available req.length then take available result else result

  unfoldable pub from_extents : ReadReq → Inode → M Disk Error (List ℕ)
  unfolding by_offset in_range read_all cut
  from_extents req n = do
    rows ←
        ask (f list_extents) (failed list_extents)
          (λ d. ok (by_offset (keep (in_range req) d.extents)))
    result ←
        (if negative req.length
          then (λ d. (err panicked, d))
          else read_all req rows (zeroes req.length))
    pure (cut req n result)

  unfoldable pub read : ReadReq → M Disk Error (List ℕ)
  unfolding from_extents read_inline
  read req = do
    n ←
        ask (f get_inode) (failed get_inode)
          (λ d. row_of (find (λ n. str_eq n.id req.inode_id) d.inodes))
    if not (length n.inline_data == 0) then read_inline req n.inline_data else from_extents req n

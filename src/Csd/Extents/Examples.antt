-- ===== src/Csd/Extents/Examples.antt =====
-- The theorems on internal/csd/server/extent_manager.go for small files.
use capper.Prelude.{ℕ, String, List, [], ◌∷◌, ◌==◌, ◌≡◌, refl, take, if◌then◌else◌, arith}
use capper.Prelude.Action.{ok}
use capper.Csd.Extents.{Inode, Extent, Object, Disk, WriteReq, is_inline, zeroes}
use capper.Csd.Extents.ReadBack.{no_faults, Sound, range}
use capper.Csd.Extents.Pieces.{Stored}
use capper.Csd.Extents.Inline.{front}
use capper.Csd.Extents.Wrapped.{write, read}
use capper.Csd.Extents.Wrapped.Files.{IsBounded, read-write, write-Stored, write_forgets}

abbrev key : String → ℕ → String
key inode offset = if offset == 0 then "f_0" else if offset == 4 then "f_4" else "f"

abbrev file : List ℕ → Inode
file bytes = record { id = "f"; size_bytes = 3; inline_data = bytes }

abbrev disk : List ℕ → List Extent → List Object → Disk
disk bytes extents objects = record {
  inodes = file bytes ∷ [];
  extents = extents;
  journal = [];
  objects = objects;
  used = ("v", 3) ∷ [];
}

abbrev request : WriteReq
request = record { volume_id = "v"; inode_id = "f"; offset = 4; bytes = 8 ∷ 9 ∷ [] }

abbrev older : Extent
older = record { inode_id = "f"; offset_bytes = 0; length_bytes = 6; object_key = "f_0" }

abbrev stored : Object
stored = record { volume_id = "v"; name = "f_0"; bytes = 1 ∷ 2 ∷ 3 ∷ 4 ∷ 5 ∷ 6 ∷ [] }

abbrev with_older : Disk
with_older = disk [] (older ∷ []) (stored ∷ [])

with_older-IsBounded : IsBounded with_older
with_older-IsBounded = record { ends = (omega arith, tt); kept = (omega arith, tt) }

read-write_example :
    ((write key no_faults request with_older).0 ≡ ok tt)
    × ((read no_faults (range key request) (write key no_faults request with_older).1).0
        ≡ ok (8 ∷ 9 ∷ []))
unfolding Sound is_inline
read-write_example =
    read-write key request with_older (file []) refl with_older-IsBounded (omega arith)
      (omega arith) (omega arith) (omega arith) refl ((λ _. (refl, (stored.bytes, refl), refl)), tt)

write_forgets_example :
    ((read no_faults (front key request 2) (disk (5 ∷ 6 ∷ 7 ∷ []) [] [])).0
      ≡ ok (take 2 (5 ∷ 6 ∷ 7 ∷ [])))
    × ((write key no_faults request (disk (5 ∷ 6 ∷ 7 ∷ []) [] [])).0 ≡ ok tt)
    × ((read no_faults
          (front key request 2)
          (write key no_faults request (disk (5 ∷ 6 ∷ 7 ∷ []) [] [])).1).0
        ≡ ok (zeroes 2))
write_forgets_example =
    write_forgets key request 2 (disk (5 ∷ 6 ∷ 7 ∷ []) [] []) (file (5 ∷ 6 ∷ 7 ∷ [])) refl
      (record { ends = tt; kept = tt }) (omega arith) (omega arith) (omega arith) (omega arith)
      (omega arith) (omega arith) (omega arith) (omega arith) tt

write-Stored_example :
    ((write key no_faults request with_older).0 ≡ ok tt)
    × Stored key "v" "f" 4 (8 ∷ 9 ∷ []) with_older (write key no_faults request with_older).1
unfolding is_inline
write-Stored_example =
    write-Stored key request with_older (file []) refl (omega arith) (omega arith) (omega arith)
      refl

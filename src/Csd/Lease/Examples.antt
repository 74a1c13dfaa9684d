-- ===== src/Csd/Lease/Examples.antt =====
-- The theorems on internal/csd/server/lease_manager.go at concrete calls.
use capper.Prelude.{String, true, false, List, [], ◌∷◌, ◌≡◌, inl, inr, refl, arith, eq_iff}
use capper.Prelude.Int.{pos}
use capper.Csd.Lease.{
  Lease, LeaseRequest, Faults, Call, acquires, lease_read, lease_exclusive, stored, new_lease,
  acquire, expire, run, step, insert, for_inode, first_conflict, check_conflict,
}
use capper.Csd.Lease.Errors.{ok}
use capper.Csd.Lease.Exclusion.{In, run_exclusion, run_exclusive}
use capper.Csd.Lease.Expiry.{acquire-expire}

abbrev sound : Faults
sound = record { reading = false; writing = false }

-- Bytes 0 to 99 of one file, for a client.
abbrev wanted : String → String → LeaseRequest
wanted kind client = record {
  volume_id = "v";
  inode_id = "i";
  client_id = client;
  session_id = "s";
  lease_type = kind;
  range_start = pos 0;
  range_end = pos 100;
  epoch = pos 1;
}

abbrev two_reads : List Call
two_reads =
    acquires sound (wanted lease_read "a") "1" 0 ∷ acquires sound (wanted lease_read "b") "2" 5 ∷ []

abbrev read_a : Lease
read_a = record (new_lease (wanted lease_read "a") "1" 0) { expires_at = 15_000_000_000 }

abbrev read_b : Lease
read_b = record (new_lease (wanted lease_read "b") "2" 5) { expires_at = 15_000_000_000 }

reads : run two_reads [] ≡ read_b ∷ read_a ∷ []
unfolding run step acquire insert stored for_inode first_conflict check_conflict
reads = refl

a-In : In read_a (run two_reads [])
a-In = rw reads (inr (inl refl))

b-In : In read_b (run two_reads [])
b-In = rw reads (inl refl)

apart : false ≡ true → ⊥
apart e = cc

run_exclusion_example : (read_a.lease_type ≡ lease_read) × (read_b.lease_type ≡ lease_read)
run_exclusion_example =
    run_exclusion two_reads read_a read_b (pos 7) a-In b-In refl refl
      (λ e. apart ((eq_iff "a" "b").1 e)) (ground arith) (ground arith)

abbrev one_writer : List Call
one_writer =
    acquires sound (wanted lease_exclusive "a") "1" 0
    ∷ acquires sound (wanted lease_read "b") "2" 5
    ∷ acquires sound (wanted lease_read "a") "3" 9
    ∷ []

abbrev write_a : Lease
write_a = record (new_lease (wanted lease_exclusive "a") "1" 0) { expires_at = 15_000_000_000 }

abbrev later_a : Lease
later_a = record (new_lease (wanted lease_read "a") "3" 9) { expires_at = 15_000_000_000 }

writes : run one_writer [] ≡ later_a ∷ write_a ∷ []
unfolding run step acquire insert stored for_inode first_conflict check_conflict
writes = refl

run_exclusive_example : write_a.client_id ≡ later_a.client_id
run_exclusive_example =
    run_exclusive one_writer write_a later_a (rw writes (inr (inl refl))) (rw writes (inl refl))
      refl refl refl

acquired : acquire sound (wanted lease_read "a") "1" 1_700_000_000 [] ≡ (
  ok (new_lease (wanted lease_read "a") "1" 1_700_000_000),
  stored (new_lease (wanted lease_read "a") "1" 1_700_000_000) ∷ [],
)
unfolding acquire insert for_inode first_conflict
acquired = refl

acquire-expire_example : In (stored (new_lease (wanted lease_read "a") "1" 1_700_000_000)) (
    expire sound 16_700_000_000 (stored (new_lease (wanted lease_read "a") "1" 1_700_000_000) ∷ []))
acquire-expire_example =
    acquire-expire sound sound (wanted lease_read "a") "1" 1_700_000_000 16_700_000_000 [] _ _
      acquired (omega arith)

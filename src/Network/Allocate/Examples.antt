-- ===== src/Network/Allocate/Examples.antt =====
-- The theorems on internal/network/ipam.go at a block of four addresses.
use capper.Prelude.{
  ℕ, ◌<◌, ◌≤◌, String, true, false, [], ◌∷◌, some, ◌≡◌, ◌≢◌, ◌⊎◌, refl, arith, eq_iff,
}
use capper.Network.{contains, broadcast_addr, next_ip, prev_ip}
use capper.Network.Sample.{ones, narrow, sample}
use capper.Network.Mac.{random_mac}
use capper.Network.Allocate.{
  ok, err, exhausted, store_failed, no_randomness, Network, NetworkLease, Leases, Calls, allocated,
  insert_lease, write_lease, first_free, validate_preferred, walk, allocate_ip,
}
use capper.Network.Allocate.FirstFit.{allocate_ip_first, allocate_ip_exhausted}
use capper.Network.Allocate.Preferred.{allocate_ip_preferred}

abbrev calls : Calls
calls = record { readable = true; random = some (255 ∷ 1 ∷ []) }

abbrev network : Network
network = record { id = "n"; subnet = "narrow"; gateway = ones 9 }

abbrev lease : String → String → NetworkLease
lease instance_id ip = record {
  network_id = "n";
  instance_id = instance_id;
  ip = ip;
  mac = 254 ∷ 1 ∷ [];
}

allocated_ten :
    allocate_ip sample calls [] network "a" ""
    ≡ (ok (lease "a" (ones 10)), lease "a" (ones 10) ∷ [])
unfolding allocate_ip walk first_free allocated write_lease insert_lease broadcast_addr next_ip
    prev_ip random_mac
allocated_ten = refl

allocate_ip_first_example :
    (a : ℕ) × (ones 10 ≡ ones a)
    × (lease "a" (ones 10) ∷ [] ≡ lease "a" (ones 10) ∷ [])
    × (9 < a)
    × (a < broadcast_addr narrow)
    × (allocated [] "n" (ones a) ≡ false)
    × ((11 ≤ 9) ⊎ ((a ≤ 11) ⊎ (allocated [] "n" (ones 11) ≡ true)))
allocate_ip_first_example =
    allocate_ip_first sample calls [] network "a" narrow 9 refl refl (omega arith)
      (unfold broadcast_addr in omega arith) _ _ 11 allocated_ten

abbrev full : Leases
full = lease "a" (ones 10) ∷ []

exhausted_again : allocate_ip sample calls full network "b" "" ≡ (err exhausted, full)
unfolding allocate_ip walk first_free allocated write_lease insert_lease broadcast_addr next_ip
    prev_ip random_mac
exhausted_again = refl

allocate_ip_exhausted_example :
    (full ≡ full)
    × ((exhausted ≡ store_failed)
        ⊎ ((exhausted ≡ no_randomness)
            ⊎ ((exhausted ≡ exhausted)
                × ((10 ≤ 9)
                    ⊎ ((broadcast_addr narrow ≤ 10) ⊎ (allocated full "n" (ones 10) ≡ true))))))
allocate_ip_exhausted_example =
    allocate_ip_exhausted sample calls full network "b" narrow 9 refl refl (omega arith)
      (unfold broadcast_addr in omega arith) _ _ 10 exhausted_again

apart : false ≡ true → ⊥
apart e = cc

given_ten : ones 10 ≢ ""
given_ten e = apart ((eq_iff (ones 10) "").1 e)

preferred_ten :
    allocate_ip sample calls [] network "a" (ones 10)
    ≡ (ok (lease "a" (ones 10)), lease "a" (ones 10) ∷ [])
unfolding allocate_ip validate_preferred contains allocated write_lease insert_lease broadcast_addr
    random_mac
preferred_ten = refl

allocate_ip_preferred_example :
    (a : ℕ) × (ones 10 ≡ ones 10)
    × (some 10 ≡ some a)
    × (contains narrow a ≡ true)
    × (ones 10 ≢ ones 9)
    × (ones 10 ≢ ones (broadcast_addr narrow))
    × (allocated [] "n" (ones 10) ≡ false)
allocate_ip_preferred_example =
    allocate_ip_preferred sample calls [] network "a" (ones 10) narrow refl given_ten _ _
      preferred_ten

-- Address 10 with a mark that does not count.
abbrev respelled : String
respelled = "o1111111111"

random_mac_example : random_mac (some (255 ∷ 1 ∷ [])) ≡ some (254 ∷ 1 ∷ [])
unfolding random_mac
random_mac_example = refl

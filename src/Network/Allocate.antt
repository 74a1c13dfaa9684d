-- ===== src/Network/Allocate.antt =====
-- `AllocateIP`, `ReleaseIP`, `GatewayForSubnet` and their helpers, of internal/network/ipam.go.
pub mod Examples
pub mod FirstFit
pub mod Preferred
use capper.Prelude.{
  ℕ, zero, suc, ◌+◌, ◌-◌, ◌<◌, ◌≤◌, String, Bool, true, false, not, ◌&&◌, ◌||◌, List, [], ◌∷◌,
  Option, none, some, any, keep, str_eq, ltb, if◌then◌else◌,
}
use capper.Network.{IpNet, NetText, size, contains, broadcast_addr, next_ip, prev_ip}
use capper.Network.Mac.{random_mac}

pub data Error : Type 0 where
  bad_subnet store_failed invalid_preferred not_in_subnet reserved taken exhausted : Error
  no_randomness panicked out_of_fuel : Error

pub data Result {ℓ} (A : Type ℓ) : Type ℓ where
  ok : A → Result A
  err : Error → Result A

-- The fields of a network that the allocation reads.
pub record Network : Type 0 where
  pub id : String
  pub subnet : String
  pub gateway : String

pub record NetworkLease : Type 0 where
  pub network_id : String
  pub instance_id : String
  pub ip : String
  pub mac : List ℕ

abbrev pub Leases : Type 0
Leases = List NetworkLease

-- `allocated[ip]` of AllocatedIPs.
pub allocated : Leases → String → String → Bool
allocated ls network ip = any (λ l. str_eq l.network_id network && str_eq l.ip ip) ls

-- The keys of the table: one lease for an instance on a network, and one for a text of an address.
pub insert_lease : NetworkLease → Leases → Option Leases
unfolding allocated
insert_lease l ls =
    if any (λ k. str_eq k.network_id l.network_id && str_eq k.instance_id l.instance_id) ls
      || allocated ls l.network_id l.ip
    then none
    else some (l ∷ ls)

pub delete_lease : String → String → Leases → Leases
delete_lease network instance_id ls =
    keep (λ l. not (str_eq l.network_id network && str_eq l.instance_id instance_id)) ls

-- Which calls fail: the query, and the source of randomness (`none`).
pub record Calls : Type 0 where
  pub readable : Bool
  pub random : Option (List ℕ)

insert_or_fail : NetworkLease → Leases → Result NetworkLease × Leases
insert_or_fail l ls = elim (insert_lease l ls) [
  | none ↦ (err store_failed, ls)
  | some ls' ↦ (ok l, ls')
]

pub write_lease : Calls → Leases → String → String → String → Result NetworkLease × Leases
unfolding insert_or_fail
write_lease c ls network instance_id ip = elim (random_mac c.random) [
  | none ↦ (err no_randomness, ls)
  | some mac ↦
      insert_or_fail
        (record { network_id = network; instance_id = instance_id; ip = ip; mac = mac }) ls
]

module _ (nt : NetText) where
  open nt use {parse_ip, parse_cidr, to_text}

  -- The address that a preference stands for must lie in the subnet; that it is neither reserved nor
  -- allocated is asked of its text.
  pub validate_preferred : String → String → String → IpNet → (String → Bool) → Option Error
  validate_preferred ip gateway broadcast net taken_ip = elim (parse_ip ip) [
    | none ↦ some invalid_preferred
    | some a ↦
        if not (contains net a)
        then some not_in_subnet
        else if str_eq ip gateway || str_eq ip broadcast
        then some reserved
        else if taken_ip ip
        then some taken
        else none
  ]

  -- The walk over the candidates.
  pub first_free : (String → Bool) → ℕ → ℕ → ℕ → Result ℕ
  first_free taken_ip zero candidate last = err out_of_fuel
  first_free taken_ip (suc fuel) candidate last =
      let rest = first_free taken_ip fuel (next_ip candidate) last in
      if ltb last candidate
      then err exhausted
      else if not (taken_ip (to_text candidate))
      then ok candidate
      else rest

  walked : Calls → Leases → Network → String → Result ℕ → Result NetworkLease × Leases
  walked c ls n instance_id (ok a) = write_lease c ls n.id instance_id (to_text a)
  walked c ls n instance_id (err e) = (err e, ls)

  preferred :
      Calls → Leases → Network → String → String → Option Error → Result NetworkLease × Leases
  preferred c ls n instance_id ip (some e) = (err e, ls)
  preferred c ls n instance_id ip none = write_lease c ls n.id instance_id ip

  -- From the address behind the gateway up to the one before the broadcast address.
  pub walk : Calls → Leases → Network → String → IpNet → Option ℕ → Result NetworkLease × Leases
  unfolding walked
  walk c ls n instance_id net none = (err panicked, ls)
  walk c ls n instance_id net (some gateway) =
      let last = prev_ip (broadcast_addr net) in
      walked c ls n instance_id (first_free (allocated ls n.id) (last + 2) (next_ip gateway) last)

  allocate_in : Calls → Leases → Network → String → String → IpNet → Result NetworkLease × Leases
  unfolding preferred
  allocate_in c ls n instance_id ip net =
      if not (str_eq ip "")
      then preferred c ls n instance_id ip
          (validate_preferred ip n.gateway (to_text (broadcast_addr net)) net (allocated ls n.id))
      else walk c ls n instance_id net (parse_ip n.gateway)

  pub allocate_ip : Calls → Leases → Network → String → String → Result NetworkLease × Leases
  unfolding allocate_in
  allocate_ip c ls n instance_id preferred_ip = elim (parse_cidr n.subnet) [
    | none ↦ (err bad_subnet, ls)
    | some net ↦
        if not c.readable
        then (err store_failed, ls)
        else allocate_in c ls n instance_id preferred_ip net
  ]

  -- The first host address.
  unfoldable pub gateway_for_subnet : String → Option String
  gateway_for_subnet cidr = elim (parse_cidr cidr) [
    | none ↦ none
    | some net ↦ some (to_text (next_ip net.ip))
  ]

-- ===== src/Network/Allocate/Preferred.antt =====
-- Preferred addresses in internal/network/ipam.go: what is asked of their text, and what is not.
use capper.Prelude.{
  ℕ, String, true, false, ◌&&◌, List, ◌∷◌, Option, some, any, str_eq, eq_iff, ◌≡◌, ◌≢◌, inl, inr,
  arith, Option-cases,
}
use capper.Network.{IpNet, NetText, contains, broadcast_addr}
use capper.Network.Mac.{random_mac}
use capper.Network.Allocate.{
  Error, ok, Network, NetworkLease, Leases, Calls, allocated, insert_lease, write_lease,
  validate_preferred, allocate_ip,
}
use capper.Network.Allocate.FirstFit.{write_lease-ip}

module _ (nt : NetText) (c : Calls) (ls : Leases) (n : Network) (instance_id ip : String)
    (net : IpNet) (pn : nt.parse_cidr n.subnet ≡ some net) (given : ip ≢ "") where
  checked : Option Error
  checked =
      validate_preferred nt ip n.gateway (nt.to_text (broadcast_addr net)) net (allocated ls n.id)

  -- A lease for a preferred address has the text that was asked for, which stands for an address of
  -- the subnet, is not the text of the gateway or of the broadcast address, and is in no other lease
  -- of the network.
  pub allocate_ip_preferred :
      (l : NetworkLease) (ls' : Leases)
      → allocate_ip nt c ls n instance_id ip ≡ (ok l, ls')
      → (a : ℕ) × (l.ip ≡ ip)
        × (nt.parse_ip ip ≡ some a)
        × (contains net a ≡ true)
        × (ip ≢ n.gateway)
        × (ip ≢ nt.to_text (broadcast_addr net))
        × (allocated ls n.id ip ≡ false)
  unfolding allocate_ip validate_preferred
  allocate_ip_preferred l ls' e = elim (Option-cases (nt.parse_ip ip)) [
    | inl p ↦ absurd (ground (arith, pn, p, eq_iff ip ""))
    | inr (a, p) ↦ (
      a,
      ground (arith, pn, p, eq_iff ip "", write_lease-ip c ls ls' n.id instance_id ip l),
      p,
      ground (arith, pn, p, eq_iff ip ""),
      ground (arith, pn, p, eq_iff ip "", eq_iff ip n.gateway),
      ground (arith, pn, p, eq_iff ip "", eq_iff ip (nt.to_text (broadcast_addr net))),
      ground (arith, pn, p, eq_iff ip ""),
    )
  ]

  -- The same address under another text passes: a preference whose text differs from the printed
  -- form of its address is leased although the address is taken, and the network then has two leases
  -- for it. (The text is neither that of the gateway nor that of the broadcast address, the address is
  -- in the subnet, the instance has no lease on the network, and the calls succeed.)
  pub allocate_ip_respelled :
      (a : ℕ) (mac : List ℕ)
      → nt.parse_ip ip ≡ some a
      → contains net a ≡ true
      → ip ≢ n.gateway
      → ip ≢ nt.to_text (broadcast_addr net)
      → allocated ls n.id ip ≡ false
      → allocated ls n.id (nt.to_text a) ≡ true
      → any (λ k. str_eq k.network_id n.id && str_eq k.instance_id instance_id) ls ≡ false
      → c.readable ≡ true
      → random_mac c.random ≡ some mac
      → (l : NetworkLease) × (allocate_ip nt c ls n instance_id ip ≡ (ok l, l ∷ ls))
        × (nt.parse_ip l.ip ≡ some a)
        × (allocated ls n.id (nt.to_text a) ≡ true)
        × (l.ip ≢ nt.to_text a)
  unfolding allocate_ip validate_preferred write_lease insert_lease
  allocate_ip_respelled a mac p i g b f t u r m = (
    record { network_id = n.id; instance_id = instance_id; ip = ip; mac = mac },
    ground (
      arith,
      pn,
      p,
      eq_iff ip "",
      eq_iff ip n.gateway,
      eq_iff ip (nt.to_text (broadcast_addr net)),
    ),
    p,
    t,
    λ e. ground (arith, e),
  )

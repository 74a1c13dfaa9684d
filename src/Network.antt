-- ===== src/Network.antt =====
-- Addresses of a capsule network: internal/network/ipam.go over the lease table of
-- internal/network/store.go. Addresses are IPv4, as numbers below 2 ^ 32; how Go's `net` reads and
-- prints them is a parameter.
pub mod Allocate
pub mod Mac
pub mod Sample
use capper.Prelude.{
  ℕ, ◌+◌, ◌-◌, ◌*◌, ◌/◌, ◌%◌, ◌^◌, ◌<◌, ◌≤◌, ◌≡◌, String, Bool, Option, none, some, ◌==◌,
}

-- net.IPNet of an IPv4 prefix: the masked address, and the length of the mask.
pub record IpNet : Type 0 where
  pub ip : ℕ
  pub bits : ℕ

-- The number of addresses.
abbrev pub size : IpNet → ℕ
size net = 2 ^ (32 - net.bits)

-- ParseCIDR masks the address.
pub record IsNet (net : IpNet) : Type 0 where
  pub short : net.bits ≤ 32
  pub masked : net.ip % size net ≡ 0
  pub fits : net.ip + size net ≤ 4_294_967_296

-- net.ParseIP with To4, net.ParseCIDR and String. Only the printed form of an address need be
-- read back: other texts may stand for the same address, such as an IPv4-mapped IPv6 address.
pub record NetText : Type 0 where
  pub parse_ip : String → Option ℕ
  pub parse_cidr : String → Option IpNet
  pub to_text : ℕ → String
  pub parse_ip-to_text : (n : ℕ) → n < 4_294_967_296 → parse_ip (to_text n) ≡ some n
  pub parse_cidr-IsNet : (s : String) (net : IpNet) → parse_cidr s ≡ some net → IsNet net

-- IPNet.Contains.
unfoldable pub contains : IpNet → ℕ → Bool
contains net a = a / size net == net.ip / size net

-- `ip | ^mask`, of a masked address.
unfoldable pub broadcast_addr : IpNet → ℕ
broadcast_addr net = net.ip + (size net - 1)

unfoldable pub next_ip : ℕ → ℕ
next_ip n = (n + 1) % 4_294_967_296

pub prev_ip : ℕ → ℕ
prev_ip n = (n + 4_294_967_295) % 4_294_967_296

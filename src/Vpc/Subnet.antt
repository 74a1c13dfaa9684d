-- ===== src/Vpc/Subnet.antt =====
-- `AllocateSubnetIP` of internal/vpc/eni_store.go.
use native.Mathlib.Nat.{div-add-mod, div-add-mod', mod-lt, one-le-pow, div-eq_of_lt-le}
use capper.Prelude.{
  ℕ, zero, suc, ◌+◌, ◌-◌, ◌*◌, ◌/◌, ◌<◌, ◌≤◌, String, Bool, true, false, not, ◌||◌, List, Option,
  none, some, any, Any, any_iff, str_eq, eq_iff, ltb, ==_iff, if◌then◌else◌, ◌≡◌, ◌≢◌, ◌↔◌, ap, ◌⊎◌,
  inl, inr, arith, Bool-cases,
}
use capper.Network.{IpNet, IsNet, NetText, size, contains, broadcast_addr, next_ip}
use capper.Network.Allocate.{gateway_for_subnet}

abbrev max_rounds : ℕ
max_rounds = 65_536

module _ (nt : NetText) where
  open nt use {parse_cidr, to_text}

  -- `usedSet`: the addresses in use and the gateway.
  used_set : List String → Option String → String → Bool
  used_set used none s = any (λ u. str_eq u s) used
  used_set used (some g) s = str_eq g s || any (λ u. str_eq u s) used

  -- The loop: at most `rounds` addresses after `ip`.
  unfoldable pub next_free : (String → Bool) → IpNet → ℕ → ℕ → Option String
  next_free used net zero ip = none
  next_free used net (suc rounds) ip =
      let a = next_ip ip in
      let rest = next_free used net rounds a in
      if not (contains net a)
      then none
      else if used (to_text a)
      then rest
      else if str_eq (to_text a) (to_text net.ip)
      then rest
      else some (to_text a)

  unfoldable pub allocate_subnet_ip : String → List String → Option String
  unfolding used_set
  allocate_subnet_ip cidr used = elim (parse_cidr cidr) [
    | none ↦ none
    | some net ↦ next_free (used_set used (gateway_for_subnet nt cidr)) net max_rounds net.ip
  ]

contains_range :
    (net : IpNet) (a : ℕ)
    → IsNet net
    → (contains net a ≡ true) ↔ ((net.ip ≤ a) × (a < net.ip + size net))
unfolding contains
contains_range net a v = (to, from)
  where
    positive : 0 < size net
    positive = one-le-pow (32 - net.bits) 2 (omega arith)

    to : contains net a ≡ true → (net.ip ≤ a) × (a < net.ip + size net)
    to h =
        let e = (==_iff (a / size net) (net.ip / size net)).0 h in
        let d = div-add-mod a (size net) in
        let f = div-add-mod net.ip (size net) in
        let l = mod-lt a positive in
        let g = v.masked in omega (arith, d, f, ap (λ (q : ℕ). size net * q) e, l, g)

    from : ((net.ip ≤ a) × (a < net.ip + size net)) → contains net a ≡ true
    from (h, k) =
        let f = div-add-mod' net.ip (size net) in
        let g = v.masked in
        (==_iff (a / size net) (net.ip / size net)).1
          (div-eq_of_lt-le (size net) (omega (arith, f, g)) (omega (arith, f, g)))

module _ (nt : NetText) (used : String → Bool) (net : IpNet) where
  open nt use {to_text}

  -- What is handed out lies in the block, is not in use, and is not the block's own address.
  next_free_sound :
      (rounds ip : ℕ) (t : String)
      → next_free nt used net rounds ip ≡ some t
      → (a : ℕ) × (t ≡ to_text a)
        × (contains net a ≡ true)
        × (used t ≡ false)
        × (t ≢ to_text net.ip)
  unfolding next_free
  next_free_sound zero ip t e = absurd (cc)
  next_free_sound (suc rounds) ip t e = elim (Bool-cases (contains net (next_ip ip))) [
    | inl c ↦ elim (Bool-cases (used (to_text (next_ip ip)))) [
      | inl u ↦ next_free_sound rounds (next_ip ip) t (ground arith)
      | inr u ↦ elim (Bool-cases (str_eq (to_text (next_ip ip)) (to_text net.ip))) [
        | inl o ↦ next_free_sound rounds (next_ip ip) t (ground arith)
        | inr o ↦ (
          next_ip ip,
          ground arith,
          c,
          ground arith,
          ground (arith, eq_iff (to_text (next_ip ip)) (to_text net.ip)),
        )
      ]
    ]
    | inr c ↦ absurd (ground arith)
  ]

  next_ip-lt : (n : ℕ) → n < 4_294_967_295 → next_ip n ≡ n + 1
  unfolding next_ip
  next_ip-lt n h = omega arith

  -- With everything between `ip` and the broadcast address in use, the broadcast address is next.
  next_free_broadcast :
      (rounds ip : ℕ)
      → IsNet net
      → net.ip ≤ ip
      → ip < broadcast_addr net
      → broadcast_addr net ≤ ip + rounds
      → ((s : ℕ) → ip < s → s < broadcast_addr net → used (to_text s) ≡ true)
      → used (to_text (broadcast_addr net)) ≡ false
      → to_text (broadcast_addr net) ≢ to_text net.ip
      → next_free nt used net rounds ip ≡ some (to_text (broadcast_addr net))
  unfolding next_free broadcast_addr
  next_free_broadcast zero ip v h k r full free own = absurd (omega arith)
  next_free_broadcast (suc rounds) ip v h k r full free own =
      let f = v.fits in
      let e = next_ip-lt ip (omega arith) in
      let c : contains net (ip + 1) ≡ true =
        (contains_range net (ip + 1) v).1 (omega arith, omega arith) in
      elim (Bool-cases (ltb (ip + 1) (net.ip + (size net - 1)))) [
        | inl l ↦
            let u = full (ip + 1) (omega arith) (ground arith) in
            let ih =
              next_free_broadcast rounds (ip + 1) v (omega arith) (ground arith) (omega arith)
                (λ s p q. full s (omega arith) q) free own in
            ground (arith, e, c, u, ih)
        | inr l ↦
            let b : ip + 1 ≡ net.ip + (size net - 1) = ground arith in
            ground (
              arith,
              e,
              c,
              b,
              free,
              eq_iff (to_text (net.ip + (size net - 1))) (to_text net.ip),
              ap (λ (x : ℕ). used (to_text x)) b,
              ap to_text b,
            )
      ]

gateway_unused :
    (nt : NetText) (used : List String) (g : Option String) (t : String)
    → used_set nt used g t ≡ false
    → g ≢ some t
unfolding used_set
gateway_unused nt used none t h = λ e. absurd (cc)
gateway_unused nt used (some g) t h = λ e. ground (arith, e, h, eq_iff g t)

entry_unused :
    (nt : NetText) (used : List String) (g : Option String) (t : String)
    → used_set nt used g t ≡ false
    → ¬ Any (λ u. u ≡ t) used
unfolding used_set
entry_unused nt used none t h = λ m.
    let i = any_iff (λ u. str_eq u t) (λ u. u ≡ t) (λ u. eq_iff u t) used in ground (arith, i, m, h)
entry_unused nt used (some g) t h = λ m.
    let i = any_iff (λ u. str_eq u t) (λ u. u ≡ t) (λ u. eq_iff u t) used in ground (arith, i, m, h)

-- The address that is handed out is one of the block, is not the gateway, is no entry of `used`,
-- and is not the address of the block itself.
pub allocate_subnet_ip_free :
    (nt : NetText) (cidr : String) (used : List String) (net : IpNet) (t : String)
    → nt.parse_cidr cidr ≡ some net
    → allocate_subnet_ip nt cidr used ≡ some t
    → (a : ℕ) × (t ≡ nt.to_text a)
      × (contains net a ≡ true)
      × (gateway_for_subnet nt cidr ≢ some t)
      × (¬ Any (λ u. u ≡ t) used)
      × (t ≢ nt.to_text net.ip)
unfolding allocate_subnet_ip
allocate_subnet_ip_free nt cidr used net t p e =
    let g = gateway_for_subnet nt cidr in
    let run : next_free nt (used_set nt used g) net max_rounds net.ip ≡ some t =
      ground (arith, p, e) in
    let (a, s, c, u, o) = next_free_sound nt (used_set nt used g) net max_rounds net.ip t run in
    (a, s, c, gateway_unused nt used g t u, entry_unused nt used g t u, o)

printed_apart :
    (nt : NetText) (a b : ℕ)
    → a < 4_294_967_296
    → b < 4_294_967_296
    → nt.to_text a ≡ nt.to_text b
    → a ≡ b
printed_apart nt a b h k e =
    ground (arith, nt.parse_ip-to_text a h, nt.parse_ip-to_text b k, ap nt.parse_ip e)

set_used :
    (nt : NetText) (used : List String) (g : Option String) (t : String)
    → Any (λ u. u ≡ t) used ⊎ (g ≡ some t)
    → used_set nt used g t ≡ true
unfolding used_set
set_used nt used none t h =
    let i = any_iff (λ u. str_eq u t) (λ u. u ≡ t) (λ u. eq_iff u t) used in ground (arith, i, h)
set_used nt used (some g) t h =
    let i = any_iff (λ u. str_eq u t) (λ u. u ≡ t) (λ u. eq_iff u t) used in
    ground (arith, i, h, eq_iff g t)

set_unused :
    (nt : NetText) (used : List String) (g : Option String) (t : String)
    → ¬ Any (λ u. u ≡ t) used
    → g ≢ some t
    → used_set nt used g t ≡ false
unfolding used_set
set_unused nt used none t h k =
    let i = any_iff (λ u. str_eq u t) (λ u. u ≡ t) (λ u. eq_iff u t) used in ground (arith, i, h)
set_unused nt used (some g) t h k =
    let i = any_iff (λ u. str_eq u t) (λ u. u ≡ t) (λ u. eq_iff u t) used in
    let d : g ≢ t = λ e. k (ap some e) in ground (arith, i, h, eq_iff g t, d)

-- The broadcast address is handed out: in a block of at most 65,536 addresses and of at least two,
-- when every address between the block's own and the broadcast address is used or the gateway, and
-- the broadcast address is neither.
pub allocate_subnet_ip_broadcast :
    (nt : NetText) (cidr : String) (used : List String) (net : IpNet)
    → nt.parse_cidr cidr ≡ some net
    → 1 < size net
    → size net ≤ 65_536
    → ((a : ℕ)
        → net.ip < a
        → a < broadcast_addr net
        → Any (λ u. u ≡ nt.to_text a) used ⊎ (gateway_for_subnet nt cidr ≡ some (nt.to_text a)))
    → ¬ Any (λ u. u ≡ nt.to_text (broadcast_addr net)) used
    → gateway_for_subnet nt cidr ≢ some (nt.to_text (broadcast_addr net))
    → allocate_subnet_ip nt cidr used ≡ some (nt.to_text (broadcast_addr net))
unfolding allocate_subnet_ip broadcast_addr
allocate_subnet_ip_broadcast nt cidr used net p two few full free gate =
    let v = nt.parse_cidr-IsNet cidr net p in
    let fits = v.fits in
    let g = gateway_for_subnet nt cidr in
    let b = broadcast_addr net in
    let apart : nt.to_text b ≢ nt.to_text net.ip = λ e.
      let q = printed_apart nt b net.ip (omega arith) (omega arith) e in absurd (omega arith) in
    let step =
      next_free_broadcast nt (used_set nt used g) net max_rounds net.ip v (omega arith)
        (omega arith) (omega arith) (λ a h k. set_used nt used g (nt.to_text a) (full a h k))
        (set_unused nt used g (nt.to_text b) free gate) apart in
    ground (arith, p, step)

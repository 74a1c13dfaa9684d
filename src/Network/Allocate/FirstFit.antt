-- ===== src/Network/Allocate/FirstFit.antt =====
-- The walk of internal/network/ipam.go over the candidates hands out the first free address.
use capper.Prelude.{
  ℕ, zero, suc, ◌+◌, ◌-◌, ◌<◌, ◌≤◌, String, Bool, true, false, ◌∷◌, some, ltb, ◌≡◌, refl, ◌⊎◌, inl,
  inr, arith, Bool-cases,
}
use capper.Network.{IpNet, IsNet, NetText, broadcast_addr, next_ip, prev_ip}
use capper.Network.Allocate.{
  Error, store_failed, no_randomness, exhausted, Result, ok, err, Network, NetworkLease, Leases,
  Calls, allocated, insert_lease, write_lease, first_free, walked, walk, allocate_ip,
}

module _ (nt : NetText) (taken_ip : String → Bool) where
  open nt use {to_text}

  abbrev Skipped : ℕ → Type 0
  Skipped s = taken_ip (to_text s) ≡ true

  -- What the walk has seen of an address `s` when it ends with `r`.
  abbrev Seen : ℕ → ℕ → ℕ → Result ℕ → Type 0
  Seen from last s (ok a) =
      (from ≤ a)
      × (a ≤ last)
      × (taken_ip (to_text a) ≡ false)
      × ((s < from) ⊎ ((a ≤ s) ⊎ Skipped s))
  Seen from last s (err e) = (e ≡ exhausted) × ((s < from) ⊎ ((last < s) ⊎ Skipped s))

  Seen-down :
      (from last s : ℕ) (r : Result ℕ)
      → from ≤ last
      → taken_ip (to_text from) ≡ true
      → Seen (from + 1) last s r
      → Seen from last s r
  Seen-down from last s (ok a) h t (p, q, u, v) = (omega arith, q, u, seen v)
    where
      seen : (s < from + 1) ⊎ ((a ≤ s) ⊎ Skipped s) → (s < from) ⊎ ((a ≤ s) ⊎ Skipped s)
      seen (inl i) = elim (Bool-cases (ltb s from)) [
        | inl b ↦ inl (ground arith)
        | inr b ↦ let e : s ≡ from = ground arith in inr (inr (rw e t))
      ]
      seen (inr i) = inr i
  Seen-down from last s (err e) h t (p, v) = (p, seen v)
    where
      seen : (s < from + 1) ⊎ ((last < s) ⊎ Skipped s) → (s < from) ⊎ ((last < s) ⊎ Skipped s)
      seen (inl i) = elim (Bool-cases (ltb s from)) [
        | inl b ↦ inl (ground arith)
        | inr b ↦ let e : s ≡ from = ground arith in inr (inr (rw e t))
      ]
      seen (inr i) = inr i

  pub first_free-Seen :
      (fuel from last s : ℕ)
      → last < 4_294_967_295
      → 0 < fuel
      → last + 1 < from + fuel
      → Seen from last s (first_free nt taken_ip fuel from last)
  unfolding first_free
  first_free-Seen zero from last s h f k = absurd (omega arith)
  first_free-Seen (suc fuel) from last s h f k = elim (Bool-cases (ltb last from)) [
    | inl b ↦ rw b (refl, ground arith)
    | inr b ↦ elim (Bool-cases (taken_ip (to_text from))) [
      | inl t ↦
          let e : next_ip from ≡ from + 1 = next_ip-lem from (ground arith) in
          rw (b, t)
            (rw e (
              Seen-down from last s _ (ground arith) t
                (first_free-Seen fuel (from + 1) last s h (ground arith) (omega arith))))
      | inr t ↦ rw (b, t) (omega arith, ground arith, t, ground arith)
    ]
  ]
    where
      next_ip-lem : (n : ℕ) → n < 4_294_967_295 → next_ip n ≡ n + 1
      next_ip-lem n h = unfold next_ip in omega arith

next_ip-lt : (n : ℕ) → n < 4_294_967_295 → next_ip n ≡ n + 1
unfolding next_ip
next_ip-lt n h = omega arith

prev_ip-lt : (n : ℕ) → 0 < n → n < 4_294_967_296 → prev_ip n ≡ n - 1
unfolding prev_ip
prev_ip-lt n h k = omega arith

broadcast-lt : (net : IpNet) → IsNet net → broadcast_addr net < 4_294_967_296
unfolding broadcast_addr
broadcast-lt net v = omega (arith, v.fits)

pub write_lease-ip :
    (c : Calls) (ls ls' : Leases) (network instance_id ip : String) (l : NetworkLease)
    → write_lease c ls network instance_id ip ≡ (ok l, ls')
    → (l.ip ≡ ip) × (ls' ≡ l ∷ ls)
unfolding write_lease insert_lease
write_lease-ip c ls ls' network instance_id ip l e = ground arith

write_lease-err :
    (c : Calls) (ls ls' : Leases) (network instance_id ip : String) (x : Error) {P : Type 0}
    → write_lease c ls network instance_id ip ≡ (err x, ls')
    → (ls' ≡ ls) × ((x ≡ store_failed) ⊎ ((x ≡ no_randomness) ⊎ P))
unfolding write_lease
write_lease-err c ls ls' network instance_id ip x e = ground arith

module _ (nt : NetText) (c : Calls) (ls : Leases) (n : Network) (instance_id : String) (net : IpNet)
    (gateway : ℕ) (pn : nt.parse_cidr n.subnet ≡ some net)
    (pg : nt.parse_ip n.gateway ≡ some gateway) (hg : gateway < 4_294_967_295)
    (hb : 0 < broadcast_addr net) where
  searched : Result ℕ
  searched =
      first_free nt (allocated ls n.id) (prev_ip (broadcast_addr net) + 2) (next_ip gateway)
        (prev_ip (broadcast_addr net))

  searched-Seen :
      (s : ℕ)
      → Seen nt (allocated ls n.id) (next_ip gateway) (prev_ip (broadcast_addr net)) s searched
  unfolding searched
  searched-Seen s =
      let b = broadcast-lt net (nt.parse_cidr-IsNet n.subnet net pn) in
      let p = prev_ip-lt (broadcast_addr net) hb b in
      let q = next_ip-lt gateway hg in
      first_free-Seen nt (allocated ls n.id) _ _ _ s (omega arith) (omega arith) (omega arith)

  searched_walk :
      (r : Result NetworkLease × Leases)
      → allocate_ip nt c ls n instance_id "" ≡ r
      → (r ≡ (err store_failed, ls)) ⊎ (walked nt c ls n instance_id searched ≡ r)
  unfolding searched allocate_ip walk
  searched_walk r e = ground (arith, pn, pg)

  bounds : (next_ip gateway ≡ gateway + 1) × (prev_ip (broadcast_addr net) ≡ broadcast_addr net - 1)
  bounds = (
    next_ip-lt gateway hg,
    prev_ip-lt (broadcast_addr net) hb (broadcast-lt net (nt.parse_cidr-IsNet n.subnet net pn)),
  )

  -- Without a preference, a lease is for the first address between the gateway and the broadcast
  -- address whose text no lease of the network has: of any address `s`, it lies at or below the
  -- gateway, or it is not below the one handed out, or it is taken. (The gateway is not the last
  -- address of all, and the subnet not 0.0.0.0/32.)
  pub allocate_ip_first :
      (l : NetworkLease) (ls' : Leases) (s : ℕ)
      → allocate_ip nt c ls n instance_id "" ≡ (ok l, ls')
      → (a : ℕ) × (l.ip ≡ nt.to_text a)
        × (ls' ≡ l ∷ ls)
        × (gateway < a)
        × (a < broadcast_addr net)
        × (allocated ls n.id (nt.to_text a) ≡ false)
        × ((s ≤ gateway) ⊎ ((a ≤ s) ⊎ (allocated ls n.id (nt.to_text s) ≡ true)))
  allocate_ip_first l ls' s e = elim (searched_walk (ok l, ls') e) [
    | inl f ↦ absurd (cc)
    | inr f ↦ go searched (searched-Seen s) f
  ]
    where
      go :
          (r : Result ℕ)
          → Seen nt (allocated ls n.id) (next_ip gateway) (prev_ip (broadcast_addr net)) s r
          → walked nt c ls n instance_id r ≡ (ok l, ls')
          → (a : ℕ) × (l.ip ≡ nt.to_text a)
            × (ls' ≡ l ∷ ls)
            × (gateway < a)
            × (a < broadcast_addr net)
            × (allocated ls n.id (nt.to_text a) ≡ false)
            × ((s ≤ gateway) ⊎ ((a ≤ s) ⊎ (allocated ls n.id (nt.to_text s) ≡ true)))
      go (ok a) (p, q, t, v) k =
          let (i, j) =
            write_lease-ip c ls ls' n.id instance_id (nt.to_text a) l (unfold walked in k) in
          (a, i, j, omega (arith, bounds.0), omega (arith, bounds.1), t, ground (arith, bounds.0))
      go (err x) v k = absurd (unfold walked in cc)

  -- On a network whose subnet and gateway parse, and without a preference, an allocation that fails leaves
  -- the leases as they were. It fails for the
  -- store, for the random source, or because every address between the gateway and the broadcast
  -- address is leased: of any address `s`, it is not between them, or it is taken. The walk never runs
  -- without end. (The gateway is not the last address of all, and the subnet not 0.0.0.0/32.)
  pub allocate_ip_exhausted :
      (e : Error) (ls' : Leases) (s : ℕ)
      → allocate_ip nt c ls n instance_id "" ≡ (err e, ls')
      → (ls' ≡ ls)
        × ((e ≡ store_failed)
            ⊎ ((e ≡ no_randomness)
                ⊎ ((e ≡ exhausted)
                    × ((s ≤ gateway)
                        ⊎ ((broadcast_addr net ≤ s) ⊎ (allocated ls n.id (nt.to_text s) ≡ true))))))
  allocate_ip_exhausted x ls' s e = elim (searched_walk (err x, ls') e) [
    | inl f ↦ (ground arith, inl (ground arith))
    | inr f ↦ go searched (searched-Seen s) f
  ]
    where
      go :
          (r : Result ℕ)
          → Seen nt (allocated ls n.id) (next_ip gateway) (prev_ip (broadcast_addr net)) s r
          → walked nt c ls n instance_id r ≡ (err x, ls')
          → (ls' ≡ ls)
            × ((x ≡ store_failed)
                ⊎ ((x ≡ no_randomness)
                    ⊎ ((x ≡ exhausted)
                        × ((s ≤ gateway)
                            ⊎ ((broadcast_addr net ≤ s)
                                ⊎ (allocated ls n.id (nt.to_text s) ≡ true))))))
      go (ok a) v k =
          write_lease-err c ls ls' n.id instance_id (nt.to_text a) x (unfold walked in k)
      go (err y) (p, v) k =
          (unfold walked in cc, inr (inr (unfold walked in cc, ground (arith, bounds.0, bounds.1))))

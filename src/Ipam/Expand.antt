-- ===== src/Ipam/Expand.antt =====
-- The addresses of a block: `ExpandCIDR`, `lastAddr` and `CIDRContains` of internal/ipam/cidr.go. How
-- net/netip reads and prints addresses is a parameter. An address is a number with its family and its zone.
pub mod Last
pub mod Reference
use capper.Prelude.{
  ℕ, zero, suc, ◌+◌, ◌-◌, ◌*◌, ◌/◌, ◌%◌, ◌^◌, ◌≤◌, ◌≡◌, String, Bool, true, false, not, ◌&&◌, ◌||◌,
  List, [], ◌∷◌, ◌++◌, Option, none, some, any, map, length, str_eq, leb, ltb, ◌==◌, if◌then◌else◌,
}
use capper.Prelude.Int.{ℤ, pos, pos_part, leb_ℤ}

pub record Addr : Type 0 where
  pub is4 : Bool
  pub value : ℕ
  pub zone : String

pub record Prefix : Type 0 where
  pub is4 : Bool
  pub value : ℕ
  pub bits : ℕ

abbrev pub width : Bool → ℕ
width true = 32
width false = 128

abbrev pub block : Prefix → ℕ
block p = 2 ^ (width p.is4 - p.bits)

pub record Netip : Type 0 where
  pub parse_prefix : String → Option Prefix
  pub parse_addr : String → Option Addr
  pub to_text : Addr → String
  -- A prefix is no longer than its addresses.
  pub parse_prefix_bits : (s : String) (p : Prefix) → parse_prefix s ≡ some p → p.bits ≤ width p.is4

-- Prefix.Masked and Prefix.Contains. The number after the last address of a family is in no prefix.
pub masked : Prefix → Prefix
masked p = record p { value = p.value - p.value % block p }

pub contains : Prefix → Addr → Bool
contains p a =
    str_eq a.zone ""
    && (if p.is4 then a.is4 else not a.is4)
    && (a.value / block p == p.value / block p)

-- `b[byteIdx] |= 1 << bitIdx`: bit `i` of the whole address.
set_bit : ℕ → ℕ → ℕ
set_bit x i = if x / 2 ^ i % 2 == 1 then x else x + 2 ^ i

set_bits : ℕ → ℕ → ℕ
set_bits x zero = x
set_bits x (suc i) = set_bit (set_bits x i) i

pub last_addr : Prefix → ℕ
unfolding set_bits set_bit
last_addr p = if p.is4 then set_bits p.value (32 - p.bits) else p.value

pub limit_of : ℤ → ℕ
limit_of max = if leb_ℤ max (pos 0) then 1024 else pos_part max

module _ (n : Netip) where
  open n use {parse_prefix, parse_addr, to_text}

  -- The texts of the excluded addresses and of the gateway; what does not parse is passed over.
  pub excluded_texts : List String → String → List String
  excluded_texts [] gateway = elim (parse_addr gateway) [ none ↦ [] | some a ↦ to_text a ∷ [] ]
  excluded_texts (e ∷ es) gateway =
      let rest = excluded_texts es gateway in
      elim (parse_addr e) [ none ↦ rest | some a ↦ to_text a ∷ rest ]

  -- What the loop passes over: of an IPv4 prefix shorter than /31 the first and the last address.
  pub skipped : Prefix → List String → ℕ → Bool
  skipped p excl v =
      (p.is4 && ltb p.bits 31 && (v == p.value || v == last_addr p))
      || any (λ t. str_eq t (to_text (record { is4 = p.is4; value = v; zone = "" }))) excl

  -- The loop from address `v` on, with a bound on its rounds.
  pub walk : Prefix → List String → ℕ → ℕ → ℕ → List String → List String
  walk p excl max zero v out = out
  walk p excl max (suc rounds) v out =
      let text = to_text (record { is4 = p.is4; value = v; zone = "" }) in
      let next =
        walk p excl max rounds (v + 1) (if skipped p excl v then out else out ++ text ∷ []) in
      if not (contains p (record { is4 = p.is4; value = v; zone = "" }))
      then out
      else if leb max (length out)
      then out
      else next

  pub expand_cidr : String → String → List String → ℤ → Option (List String)
  unfolding masked excluded_texts limit_of
  expand_cidr cidr gateway excluded max = elim (parse_prefix cidr) [
    | none ↦ none
    | some q ↦
        let p = masked q in
        some (walk p (excluded_texts excluded gateway) (limit_of max) (block p + 1) p.value [])
  ]

  pub cidr_contains : String → String → Bool
  unfolding contains
  cidr_contains cidr address = elim (parse_prefix cidr) [
    | none ↦ false
    | some p ↦ elim (parse_addr address) [ none ↦ false | some a ↦ contains p a ]
  ]

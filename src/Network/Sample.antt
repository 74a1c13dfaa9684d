-- ===== src/Network/Sample.antt =====
-- A notation for addresses at which the theorems on internal/network and internal/vpc are tried: an
-- address is written as that many ones, other marks do not count, and two blocks have a text.
use Prim.Native.String.{◌∷◌ as ◌∷ˢ◌}
use capper.Prelude.{
  ℕ, zero, suc, String, [], ◌∷◌, Option, none, some, ◌==◌, ◌≡◌, refl, if◌then◌else◌, str_eq, arith,
  ap, Bool-cases, inl, inr, subst,
}
use capper.Prelude.Bytes.{Bytes, codes}
use capper.Network.{IpNet, IsNet, NetText}

abbrev pub ones : ℕ → String
ones zero = ""
ones (suc n) = "1" ∷ˢ ones n

abbrev pub ones_in : Bytes → ℕ
ones_in [] = 0
ones_in (c ∷ cs) = let rest = ones_in cs in if c == b'1' then suc rest else rest

pub ones_in-ones : (n : ℕ) → ones_in (codes (ones n)) ≡ n
ones_in-ones zero = refl
ones_in-ones (suc n) = ground (arith, ones_in-ones n)

-- Eight addresses from 8 on, and the four first of them.
abbrev pub wide : IpNet
wide = record { ip = 8; bits = 29 }

abbrev pub narrow : IpNet
narrow = record { ip = 8; bits = 30 }

abbrev pub nets : String → Option IpNet
nets s = if str_eq s "wide" then some wide else if str_eq s "narrow" then some narrow else none

wide-IsNet : IsNet wide
wide-IsNet = record { short = omega arith; masked = refl; fits = omega arith }

narrow-IsNet : IsNet narrow
narrow-IsNet = record { short = omega arith; masked = refl; fits = omega arith }

pub nets-IsNet : (s : String) (net : IpNet) → nets s ≡ some net → IsNet net
nets-IsNet s net e = elim (Bool-cases (str_eq s "wide")) [
  | inl h ↦ subst IsNet (ground arith) wide-IsNet
  | inr h ↦ elim (Bool-cases (str_eq s "narrow")) [
    | inl k ↦ subst IsNet (ground arith) narrow-IsNet
    | inr k ↦ absurd (ground arith)
  ]
]

abbrev pub sample : NetText
sample = record {
  parse_ip = λ s. some (ones_in (codes s));
  parse_cidr = nets;
  to_text = ones;
  parse_ip-to_text = λ n h. ap (λ (m : ℕ). some m) (ones_in-ones n);
  parse_cidr-IsNet = nets-IsNet;
}

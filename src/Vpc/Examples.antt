-- ===== src/Vpc/Examples.antt =====
-- The theorems on internal/vpc at two blocks, of eight and of four addresses.
use capper.Prelude.{
  ℕ, ◌<◌, String, true, false, List, [], ◌∷◌, some, Any, ◌≡◌, ◌≢◌, ◌↔◌, ◌⊎◌, inl, inr, refl, arith,
  eq_iff, ap, Bool-cases, ◌==◌,
}
use capper.Network.{contains, broadcast_addr, next_ip}
use capper.Network.Sample.{ones, wide, narrow, sample}
use capper.Network.Allocate.{gateway_for_subnet}
use capper.Vpc.Cidr.{
  contains_cidr, overlap_cidr, overlap_cidr_shared, validate_cidr, bytes_equal, mask_at_least, mask,
}
use capper.Vpc.Subnet.{next_free, allocate_subnet_ip, allocate_subnet_ip_free}

apart : false ≡ true → ⊥
apart e = cc

overlap_cidr_shared_example :
    (overlap_cidr sample "wide" "narrow" ≡ some true)
    ↔ ((x : ℕ) × (contains wide x ≡ true) × (contains narrow x ≡ true))
overlap_cidr_shared_example =
    overlap_cidr_shared sample "wide" "narrow" wide narrow (λ e. apart ((eq_iff "wide" "").1 e))
      (λ e. apart ((eq_iff "narrow" "").1 e)) refl refl

contained : contains_cidr sample "wide" "narrow" ≡ some true
unfolding contains_cidr validate_cidr contains bytes_equal mask_at_least mask
contained = refl

abbrev in_use : List String
in_use = ones 10 ∷ []

eleven : allocate_subnet_ip sample "narrow" in_use ≡ some (ones 11)
unfolding allocate_subnet_ip next_free gateway_for_subnet contains next_ip
eleven = refl

allocate_subnet_ip_free_example :
    (a : ℕ) × (ones 11 ≡ ones a)
    × (contains narrow a ≡ true)
    × (gateway_for_subnet sample "narrow" ≢ some (ones 11))
    × (¬ Any (λ u. u ≡ ones 11) in_use)
    × (ones 11 ≢ ones 8)
allocate_subnet_ip_free_example =
    allocate_subnet_ip_free sample "narrow" in_use narrow (ones 11) refl eleven

between :
    (a : ℕ)
    → narrow.ip < a
    → a < broadcast_addr narrow
    → Any (λ u. u ≡ ones a) in_use ⊎ (gateway_for_subnet sample "narrow" ≡ some (ones a))
unfolding broadcast_addr gateway_for_subnet next_ip
between a h k = elim (Bool-cases (a == 9)) [
  | inl e ↦ let q : 9 ≡ a = ground arith in inr (ap (λ (m : ℕ). some (ones m)) q)
  | inr e ↦ let q : 10 ≡ a = ground arith in inl (inl (ap ones q))
]

broadcast_unused : ¬ Any (λ u. u ≡ ones (broadcast_addr narrow)) in_use
unfolding broadcast_addr
broadcast_unused (inl e) = apart ((eq_iff (ones 10) (ones 11)).1 e)
broadcast_unused (inr e) = absurd e

gateway_differs : gateway_for_subnet sample "narrow" ≢ some (ones (broadcast_addr narrow))
unfolding broadcast_addr gateway_for_subnet next_ip
gateway_differs e = let same : ones 9 ≡ ones 11 = cc in apart ((eq_iff (ones 9) (ones 11)).1 same)

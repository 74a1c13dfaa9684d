-- ===== src/Ipam/Expand/Last.antt =====
-- The last address of a masked IPv4 block, `lastAddr` of internal/ipam/cidr.go.
use native.Mathlib.Nat.{one-le-pow, two-pow-succ, div-eq_of_lt-le, div-add-mod', mul_assoc, two-mul}
use capper.Prelude.{
  ℕ, zero, suc, ◌+◌, ◌-◌, ◌*◌, ◌/◌, ◌%◌, ◌^◌, ◌≡◌, refl, true, arith, ap, sym, subst, ◌∙◌,
}
use capper.Ipam.Expand.{Prefix, width, block, set_bit, set_bits, last_addr}

set_bit-even : (x k q : ℕ) → x / 2 ^ k ≡ q * 2 → set_bit x k ≡ x + 2 ^ k
unfolding set_bit
set_bit-even x k q e = ground (arith, e)

set_bits-suc : (x k : ℕ) → set_bits x (suc k) ≡ set_bit (set_bits x k) k
unfolding set_bits
set_bits-suc x k = refl

set_bits_lem : (k c : ℕ) → set_bits (c * 2 ^ k) k + 1 ≡ c * 2 ^ k + 2 ^ k
unfolding set_bits
set_bits_lem zero c = omega arith
set_bits_lem (suc k) c =
    let double : 2 ^ suc k ≡ 2 * 2 ^ k = two-pow-succ k ∙ sym (two-mul (2 ^ k)) in
    let same : c * 2 ^ suc k ≡ c * 2 * 2 ^ k =
      ap (λ x. c * x) double ∙ sym (mul_assoc c 2 (2 ^ k)) in
    let ih : set_bits (c * 2 ^ suc k) k + 1 ≡ c * 2 ^ suc k + 2 ^ k =
      subst (λ x. set_bits x k + 1 ≡ x + 2 ^ k) (sym same) (set_bits_lem k (c * 2)) in
    let positive = one-le-pow k 2 (omega arith) in
    let low : set_bits (c * 2 ^ suc k) k / 2 ^ k ≡ c * 2 =
      div-eq_of_lt-le (2 ^ k) (omega (arith, ih, positive, same))
        (omega (arith, ih, positive, same)) in
    let top = set_bit-even (set_bits (c * 2 ^ suc k) k) k c low in
    ap (λ x. x + 1) (set_bits-suc (c * 2 ^ suc k) k ∙ top) ∙ omega (arith, ih, double)

set_bits_whole : (v k : ℕ) → v % 2 ^ k ≡ 0 → set_bits v k + 1 ≡ v + 2 ^ k
set_bits_whole v k start =
    let whole : v / 2 ^ k * 2 ^ k ≡ v = omega (arith, div-add-mod' v (2 ^ k), start) in
    subst (λ x. set_bits x k + 1 ≡ x + 2 ^ k) whole (set_bits_lem k (v / 2 ^ k))

-- The last address is the first of the next block, less one.
pub last_addr_lem :
    (p : Prefix) → p.is4 ≡ true → p.value % block p ≡ 0 → last_addr p + 1 ≡ p.value + block p
unfolding last_addr
last_addr_lem p four start = rw four (
    set_bits_whole p.value (32 - p.bits)
      (subst (λ b. p.value % 2 ^ (width b - p.bits) ≡ 0) four start))

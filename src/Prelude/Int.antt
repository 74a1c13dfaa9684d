-- ===== src/Prelude/Int.antt =====
-- Go's signed 64-bit integers: ℤ over the native numbers, and the wrap-around of `int` and `int64`.
use Prim.Native.Nat.{ℕ, suc, ◌+◌, ◌-◌, ◌%◌, ◌≤◌, ◌<◌}
use mathlib.Core.Path.{◌≡◌}
use mathlib.Core.Bool.{Bool}
use native.Mathlib.Omega.{arith}
use capper.Prelude.Tests.{if◌then◌else◌, ltb, leb, ◌==◌}

-- `negsuc n` is -(n + 1).
pub data ℤ : Type 0 where
  pos : ℕ → ℤ
  negsuc : ℕ → ℤ

abbrev pub pos_part : ℤ → ℕ
pos_part (pos n) = n
pos_part (negsuc n) = 0

abbrev pub neg_part : ℤ → ℕ
neg_part (pos n) = 0
neg_part (negsuc n) = suc n

-- a - b, as an integer.
abbrev pub sub_ℕ : ℕ → ℕ → ℤ
sub_ℕ a b = if leb b a then pos (a - b) else negsuc (b - a - 1)

infix 50 ◌≤ℤ◌ ◌<ℤ◌
abbrev pub ◌≤ℤ◌ : ℤ → ℤ → Type 0
a ≤ℤ b = pos_part a + neg_part b ≤ pos_part b + neg_part a

abbrev pub ◌<ℤ◌ : ℤ → ℤ → Type 0
a <ℤ b = pos_part a + neg_part b < pos_part b + neg_part a

abbrev pub ltb_ℤ : ℤ → ℤ → Bool
ltb_ℤ a b = ltb (pos_part a + neg_part b) (pos_part b + neg_part a)

abbrev pub leb_ℤ : ℤ → ℤ → Bool
leb_ℤ a b = leb (pos_part a + neg_part b) (pos_part b + neg_part a)

abbrev pub eq_ℤ : ℤ → ℤ → Bool
eq_ℤ a b = pos_part a + neg_part b == pos_part b + neg_part a

-- The value in two's complement of the residue `r`, `r < 2 ^ 64`.
abbrev pub signed64 : ℕ → ℤ
signed64 r =
    if ltb r 9_223_372_036_854_775_808 then pos r else negsuc (18_446_744_073_709_551_615 - r)

-- The 64-bit integer that `a - b` wraps to.
unfoldable pub wrap64 : ℕ → ℕ → ℤ
wrap64 a b = signed64 (
    (a + (18_446_744_073_709_551_616 - b % 18_446_744_073_709_551_616))
    % 18_446_744_073_709_551_616)

unfoldable pub add64 : ℤ → ℤ → ℤ
unfolding wrap64
add64 a b = wrap64 (pos_part a + pos_part b) (neg_part a + neg_part b)

unfoldable pub sub64 : ℤ → ℤ → ℤ
unfolding wrap64
sub64 a b = wrap64 (pos_part a + neg_part b) (neg_part a + pos_part b)

abbrev pub Fits64 : ℤ → Type 0
Fits64 a = (pos_part a < 9_223_372_036_854_775_808) × (neg_part a ≤ 9_223_372_036_854_775_808)

-- Where the difference fits, there is no wrap-around.
wrap64-Fits64 :
    (a b : ℕ)
    → a < b + 9_223_372_036_854_775_808
    → b ≤ a + 9_223_372_036_854_775_808
    → wrap64 a b ≡ sub_ℕ a b
unfolding wrap64
wrap64-Fits64 a b h k = ground arith

pub eq_of_parts : (a b : ℤ) → pos_part a + neg_part b ≡ pos_part b + neg_part a → a ≡ b
eq_of_parts a b h = ground arith

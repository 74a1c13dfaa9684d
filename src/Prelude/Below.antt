-- ===== src/Prelude/Below.antt =====
-- A test of all numbers below a bound, for facts about bytes and mask lengths.
use Prim.Native.Nat.{ℕ, zero, suc, ◌<◌}
use mathlib.Core.Path.{◌≡◌}
use mathlib.Core.Bool.{Bool, true, false}
use native.Mathlib.Omega.{arith}
use capper.Prelude.Tests.{if◌then◌else◌}

module _ (test : ℕ → Bool) where
  unfoldable pub passes_below : ℕ → Bool
  passes_below zero = true
  passes_below (suc bound) = let lower = passes_below bound in if test bound then lower else false

  pub passes_below-lt : (bound k : ℕ) → k < bound → passes_below bound ≡ true → test k ≡ true
  unfolding passes_below
  passes_below-lt zero k less passed = absurd (omega arith)
  passes_below-lt (suc bound) k less passed = ground (arith, passes_below-lt bound k)

-- ===== src/Prelude/Blocks.antt =====
-- Blocks of numbers: those with one quotient by the size.
use native.Mathlib.Nat.{div-add-mod, div-add-mod', mod-lt, div-eq_of_lt-le}
use Prim.Native.Nat.{ℕ, ◌+◌, ◌*◌, ◌/◌, ◌%◌, ◌≤◌, ◌<◌}
use mathlib.Core.Path.{◌≡◌, ap}
use mathlib.Core.Logic.{◌↔◌}
use mathlib.Core.Bool.{true}
use native.Mathlib.Omega.{arith}
use capper.Prelude.Tests.{◌==◌, ==_iff}

-- The numbers of the block that starts at a multiple of the size.
pub in_block_iff :
    (size base a : ℕ)
    → 0 < size
    → base % size ≡ 0
    → ((a / size == base / size) ≡ true) ↔ ((base ≤ a) × (a < base + size))
in_block_iff size base a positive start = (to, from)
  where
    to : (a / size == base / size) ≡ true → (base ≤ a) × (a < base + size)
    to h =
        let e = (==_iff (a / size) (base / size)).0 h in
        let d = div-add-mod a size in
        let f = div-add-mod base size in
        let l = mod-lt a positive in omega (arith, d, f, ap (λ (q : ℕ). size * q) e, l, start)

    from : ((base ≤ a) × (a < base + size)) → (a / size == base / size) ≡ true
    from (h, k) =
        let f = div-add-mod' base size in
        (==_iff (a / size) (base / size)).1
          (div-eq_of_lt-le size (omega (arith, f, start)) (omega (arith, f, start)))

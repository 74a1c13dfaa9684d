-- ===== src/Csd/Fence.antt =====
-- The fencing token of internal/csd/replication/transport.go. No other code advances or validates it.
use capper.Prelude.{
  ℕ, zero, suc, ◌+◌, ◌%◌, ◌<◌, ◌≤◌, Option, none, some, ltb, if◌then◌else◌, ◌≡◌, arith, ◌↔◌,
}

-- FencingToken: a uint64, which starts at 0.
pub record FencingToken : Type 0 where
  pub val : ℕ

-- StaleFenceError.
pub record StaleFenceError : Type 0 where
  pub got : ℕ
  pub want : ℕ

pub current : FencingToken → ℕ
current ft = ft.val

pub advance : FencingToken → FencingToken × ℕ
advance ft = (record { val = v }, v)
  where
    v : ℕ
    v = (ft.val + 1) % 18_446_744_073_709_551_616

pub validate : FencingToken → ℕ → Option StaleFenceError
validate ft token = if ltb token ft.val then some (record { got = token; want = ft.val }) else none

pub advances : ℕ → FencingToken → FencingToken
advances zero ft = ft
advances (suc n) ft = advances n (advance ft).0

advances-val :
    (n : ℕ) (ft : FencingToken)
    → ft.val + n < 18_446_744_073_709_551_616
    → (advances n ft).val ≡ ft.val + n
unfolding advances advance
advances-val zero ft h = omega arith
advances-val (suc n) ft h = omega (arith, advances-val n (advance ft).0)

-- After n advances the token of the k-th of them, k ≤ n, is accepted exactly if k is n; this while the
-- counter stays below 2 ^ 64.
validate-advances :
    (n k : ℕ) (ft : FencingToken)
    → ft.val + n < 18_446_744_073_709_551_616
    → k ≤ n
    → (validate (advances n ft) (current (advances k ft)) ≡ none) ↔ (k ≡ n)
unfolding validate current
validate-advances n k ft h g = ground (arith, advances-val n ft h, advances-val k ft)

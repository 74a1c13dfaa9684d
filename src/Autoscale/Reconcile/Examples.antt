-- ===== src/Autoscale/Reconcile/Examples.antt =====
-- A group that grows by one at each evaluation, under the reconciler of internal/autoscale/reconciler.go.
use capper.Prelude.{false, true, [], ◌∷◌, some, ◌≡◌, ◌≢◌, refl, inl, arith}
use capper.Prelude.Int.{ℤ, pos, wrap64}
use capper.Autoscale.{scale_out}
use capper.Autoscale.Examples.{policy}
use capper.Autoscale.Reconcile.{
  World, Calls, Evaluator, cooldown, run, evaluate, evaluated, recorded, record_decision,
  apply_change, after_cooldown, cooldown_blocked, is_move,
}
use capper.Autoscale.Reconcile.Cooldown.{Cools, Honest, run_scaled}

abbrev greedy : Evaluator ℤ
greedy p current = record {
  rec = record {
    decision = scale_out;
    old_replicas = current;
    recommended_replicas = pos 5;
    new_replicas = pos 5;
    blocked = false;
  };
  failed = false;
}

greedy-Honest : Honest greedy
unfolding is_move
greedy-Honest p current = inl refl

abbrev world : World ℤ
world = record { replicas = pos 4; policy = policy; decisions = [] }

-- The cooldown of the change before has passed by then.
abbrev first : Calls
first = record {
  now = 1_070_000_000_000;
  readable = true;
  settable = true;
  notable = true;
  recordable = true;
}

abbrev last : Calls
last = record first { now = 1_129_999_999_999 }

world-Cools : Cools 60 policy
unfolding cooldown
world-Cools = ground arith

grown : (evaluate (some greedy) first world).replicas ≡ pos 5
unfolding evaluate evaluated recorded record_decision apply_change after_cooldown cooldown_blocked
    cooldown is_move wrap64
grown = refl

changed : (evaluate (some greedy) first world).replicas ≢ world.replicas
changed e = ground (arith, grown, e)

run_scaled_example :
    (run (some greedy) (first ∷ last ∷ last ∷ []) world).replicas
    ≡ (evaluate (some greedy) first world).replicas
run_scaled_example =
    run_scaled greedy 60 first (last ∷ last ∷ []) world greedy-Honest changed refl
      (omega arith, (omega arith, tt)) world-Cools

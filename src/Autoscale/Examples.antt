-- ===== src/Autoscale/Examples.antt =====
-- The theorems on internal/autoscale at concrete policies and metrics. Metrics are integers here, and
-- quotients are rounded up.
use capper.Prelude.{◌+◌, ◌-◌, ◌*◌, ◌/◌, String, true, Option, some, inr, arith}
use capper.Prelude.Int.{ℤ, pos, ltb_ℤ, leb_ℤ, pos_part, ◌<ℤ◌, add64, wrap64}
use capper.Autoscale.{AutoscalePolicy, Float64}
use capper.Autoscale.Evaluators.{target_evaluate, step_of}
use capper.Autoscale.Evaluators.Range.{HasRange, Good, target_evaluate-Good}

abbrev metric : Float64
metric = record {
  F = ℤ;
  of_int = λ n. n;
  mul = λ a b. pos (pos_part a * pos_part b);
  div = λ a b. pos ((pos_part a + (pos_part b - 1)) / pos_part b);
  int_ceil = λ x. x;
  lt = ltb_ℤ;
  le = leb_ℤ;
}

-- One to ten replicas, around 50.
abbrev pub policy : AutoscalePolicy ℤ
policy = record {
  id = "p";
  group_id = "g";
  enabled = true;
  policy_type = "target";
  metric_name = "cpu";
  queue_name = "jobs";
  target_value = pos 50;
  scale_out_threshold = pos 80;
  scale_in_threshold = pos 20;
  min_replicas = pos 1;
  max_replicas = pos 10;
  scale_out_step = pos 2;
  scale_in_step = pos 0;
  scale_out_cooldown = pos 0;
  scale_in_cooldown = pos 600;
  schedule_json = "[{}]";
  last_scale_at = some 1000;
}

abbrev busy : String → String → Option ℤ
busy group name = some (pos 95)

policy-HasRange : HasRange (pos 1) (pos 10)
policy-HasRange = inr (omega arith)

target_evaluate-Good_example :
    Good (pos 1) (pos 10) (pos 4) (target_evaluate metric busy policy (pos 4))
target_evaluate-Good_example = target_evaluate-Good metric busy policy (pos 4) policy-HasRange

stepped : pos 10 <ℤ add64 (pos 15) (step_of metric (pos 2))
unfolding step_of add64 wrap64
stepped = omega arith

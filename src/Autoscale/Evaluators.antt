-- ===== src/Autoscale/Evaluators.antt =====
-- The target, threshold and queue evaluators of internal/autoscale/evaluator (target.go, queue.go).
pub mod Range
use capper.Prelude.{
  ℕ, String, Bool, true, false, not, ◌&&◌, Option, none, some, str_eq, if◌then◌else◌,
}
use capper.Prelude.Int.{ℤ, pos, ltb_ℤ, leb_ℤ, eq_ℤ, add64, sub64}
use capper.Autoscale.{
  Decision, scale_out, scale_in, hold, disabled, error, Float64, AutoscalePolicy, Evaluation, stay,
  move, clamp, compare_to,
}

module _ (fl : Float64) where
  open fl use {F, of_int, mul, div, int_ceil, lt, le}

  target_replicas : AutoscalePolicy F → F → ℤ → ℤ
  target_replicas policy val current =
      let ratio = int_ceil (div (mul (of_int current) val) policy.target_value) in
      if eq_ℤ current (pos 0) && lt (of_int (pos 0)) val then policy.min_replicas else ratio

  target_of : AutoscalePolicy F → ℤ → Option F → Evaluation
  target_of policy current none = stay error current true
  target_of policy current (some val) =
      if le policy.target_value (of_int (pos 0))
      then stay hold current false
      else compare_to current
          (clamp (target_replicas policy val current) policy.min_replicas policy.max_replicas)

  -- `query` is the metric of a group by its name; `none` is an error.
  pub target_evaluate : (String → String → Option F) → AutoscalePolicy F → ℤ → Evaluation
  unfolding target_of target_replicas
  target_evaluate query policy current =
      if not policy.enabled
      then stay disabled current false
      else target_of policy current (query policy.group_id policy.metric_name)

  -- A step that is not positive counts as 1.
  unfoldable pub step_of : ℤ → ℤ
  step_of s = if leb_ℤ s (pos 0) then pos 1 else s

  threshold_of : AutoscalePolicy F → ℤ → Option F → Evaluation
  threshold_of policy current none = stay error current true
  threshold_of policy current (some val) =
      if lt (of_int (pos 0)) policy.scale_out_threshold && le policy.scale_out_threshold val
      then move scale_out current (
          clamp (add64 current (step_of policy.scale_out_step)) policy.min_replicas
            policy.max_replicas)
      else if lt (of_int (pos 0)) policy.scale_in_threshold && le val policy.scale_in_threshold
      then move scale_in current (
          clamp (sub64 current (step_of policy.scale_in_step)) policy.min_replicas
            policy.max_replicas)
      else move hold current current

  pub threshold_evaluate : (String → String → Option F) → AutoscalePolicy F → ℤ → Evaluation
  unfolding threshold_of
  threshold_evaluate query policy current =
      if not policy.enabled
      then stay disabled current false
      else threshold_of policy current (query policy.group_id policy.metric_name)

  -- A target that is not positive counts as 50 messages for each worker.
  queue_replicas : AutoscalePolicy F → ℤ → ℤ
  queue_replicas policy depth =
      let target =
        if le policy.target_value (of_int (pos 0)) then of_int (pos 50) else policy.target_value in
      if eq_ℤ depth (pos 0) then policy.min_replicas else int_ceil (div (of_int depth) target)

  queue_of : AutoscalePolicy F → ℤ → Option ℤ → Evaluation
  queue_of policy current none = stay error current true
  queue_of policy current (some depth) =
      compare_to current
        (clamp (queue_replicas policy depth) policy.min_replicas policy.max_replicas)

  -- `depth` is the depth of a queue by its name; `none` is an error.
  pub queue_evaluate : (String → Option ℤ) → AutoscalePolicy F → ℤ → Evaluation
  unfolding queue_of queue_replicas
  queue_evaluate depth policy current =
      if not policy.enabled
      then stay disabled current false
      else if str_eq policy.queue_name ""
      then stay error current true
      else queue_of policy current (depth policy.queue_name)

-- ===== src/Autoscale.antt =====
-- The autoscaler (internal/autoscale): its policies and recommendations, its evaluators and its
-- reconciler. Replica counts are Go's `int`. Metrics are float64: a type and operations that the
-- evaluators take. The texts that only explain a decision are left out.
pub mod Evaluators
pub mod Examples
pub mod Cron
pub mod Reconcile
use capper.Prelude.{ℕ, String, Bool, true, false, Option, none, some, if◌then◌else◌, ◌&&◌}
use capper.Prelude.Int.{ℤ, pos, ltb_ℤ}

pub data Decision : Type 0 where
  scale_out scale_in hold blocked disabled error : Decision

-- float64 as the evaluators use it: conversion, product, quotient, `int(math.Ceil(x))`, and order.
pub record Float64 : Type 1 where
  pub F : Type 0
  pub of_int : ℤ → F
  pub mul : F → F → F
  pub div : F → F → F
  pub int_ceil : F → ℤ
  pub lt : F → F → Bool
  pub le : F → F → Bool

-- AutoscalePolicy, less the fields that no evaluator and no cooldown reads. `last_scale_at` is the
-- parsed time in seconds, and `none` where the text is empty or does not parse.
pub record AutoscalePolicy (F : Type 0) : Type 0 where
  pub id : String
  pub group_id : String
  pub enabled : Bool
  pub policy_type : String
  pub metric_name : String
  pub queue_name : String
  pub target_value : F
  pub scale_out_threshold : F
  pub scale_in_threshold : F
  pub min_replicas : ℤ
  pub max_replicas : ℤ
  pub scale_out_step : ℤ
  pub scale_in_step : ℤ
  pub scale_out_cooldown : ℤ
  pub scale_in_cooldown : ℤ
  pub schedule_json : String
  pub last_scale_at : Option ℕ

pub record ScaleRecommendation : Type 0 where
  pub decision : Decision
  pub old_replicas : ℤ
  pub recommended_replicas : ℤ
  pub new_replicas : ℤ
  pub blocked : Bool

-- `Evaluate` returns a recommendation beside its error.
pub record Evaluation : Type 0 where
  pub rec : ScaleRecommendation
  pub failed : Bool

-- A recommendation that leaves the group as it is.
abbrev pub stay : Decision → ℤ → Bool → Evaluation
stay d current failed = record {
  rec = record {
    decision = d;
    old_replicas = current;
    recommended_replicas = current;
    new_replicas = current;
    blocked = false;
  };
  failed = failed;
}

abbrev pub move : Decision → ℤ → ℤ → Evaluation
move d current desired = record {
  rec = record {
    decision = d;
    old_replicas = current;
    recommended_replicas = desired;
    new_replicas = desired;
    blocked = false;
  };
  failed = false;
}

pub clamp : ℤ → ℤ → ℤ → ℤ
clamp v min max = if ltb_ℤ v min then min else if ltb_ℤ (pos 0) max && ltb_ℤ max v then max else v

-- The switch at the end of three of the evaluators.
pub compare_to : ℤ → ℤ → Evaluation
compare_to current desired =
    if ltb_ℤ current desired
    then move scale_out current desired
    else if ltb_ℤ desired current
    then move scale_in current desired
    else move hold current desired

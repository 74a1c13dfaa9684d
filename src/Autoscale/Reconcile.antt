-- ===== src/Autoscale/Reconcile.antt =====
-- `Reconciler.evaluate` of internal/autoscale/reconciler.go, over one policy and its group. The clock
-- is in nanoseconds.
pub mod Cooldown
mod Examples
use capper.Prelude.{
  ℕ, ◌+◌, ◌*◌, ◌/◌, ◌-◌, String, Bool, true, false, not, ◌&&◌, ◌||◌, List, [], ◌∷◌, ◌++◌, Option,
  none, some, if◌then◌else◌,
}
use capper.Prelude.Int.{ℤ, pos, ltb_ℤ, leb_ℤ, eq_ℤ, sub_ℕ, wrap64, pos_part, neg_part}
use capper.Autoscale.{
  Decision, scale_out, scale_in, hold, blocked, Float64, AutoscalePolicy, ScaleRecommendation,
  Evaluation,
}

-- What a reconciliation reads and writes: the replicas that the group wants, the policy as it is
-- stored, and the recorded decisions.
pub record World (F : Type 0) : Type 0 where
  pub replicas : ℤ
  pub policy : AutoscalePolicy F
  pub decisions : List ScaleRecommendation

-- What the calls of the reconciler find: the clock, whether the group can be read, whether the change
-- and the note of its time are carried out.
pub record Calls : Type 0 where
  pub now : ℕ
  pub readable : Bool
  pub settable : Bool
  pub notable : Bool
  pub recordable : Bool

abbrev pub Evaluator : Type 0 → Type 0
Evaluator F = AutoscalePolicy F → ℤ → Evaluation

pub is_move : Decision → Bool
is_move scale_out = true
is_move scale_in = true
is_move _ = false

-- The cooldown of a direction in seconds, 60 or 300 where none is set.
unfoldable pub cooldown : {F : Type 0} → AutoscalePolicy F → Decision → ℤ
cooldown p scale_out = if leb_ℤ p.scale_out_cooldown (pos 0) then pos 60 else p.scale_out_cooldown
cooldown p _ = if leb_ℤ p.scale_in_cooldown (pos 0) then pos 300 else p.scale_in_cooldown

-- `time.Duration(cooldown) * time.Second`, in nanoseconds.
abbrev pub needed : ℤ → ℤ
needed c = wrap64 (pos_part c * 1_000_000_000) (neg_part c * 1_000_000_000)

block : ℤ → ScaleRecommendation → ScaleRecommendation
block current r = record r { blocked = true; decision = blocked; new_replicas = current }

module _ {F : Type 0} where
  -- The change would come before the cooldown of its direction has passed.
  pub cooldown_blocked : ℕ → AutoscalePolicy F → Decision → Bool
  unfolding cooldown
  cooldown_blocked now p d = elim p.last_scale_at [
    | none ↦ false
    | some t ↦ ltb_ℤ (sub_ℕ now (t * 1_000_000_000)) (needed (cooldown p d))
  ]

  -- The cooldown checks.
  pub after_cooldown : ℕ → AutoscalePolicy F → ℤ → ScaleRecommendation → ScaleRecommendation
  unfolding block
  after_cooldown now p current r =
      if is_move r.decision && cooldown_blocked now p r.decision then block current r else r

  pub note_scale : Calls → AutoscalePolicy F → AutoscalePolicy F
  note_scale c p =
      if c.notable then record p { last_scale_at = some (c.now / 1_000_000_000) } else p

  pub record_decision : Calls → ScaleRecommendation → World F → World F
  record_decision c r w = if c.recordable then record w { decisions = w.decisions ++ r ∷ [] } else w

  -- The change itself: a change that cannot be carried out is blocked.
  pub apply_change : Calls → ScaleRecommendation → World F → ScaleRecommendation × World F
  unfolding note_scale block
  apply_change c r w =
      if not r.blocked && not (eq_ℤ r.new_replicas w.replicas)
      then (if c.settable
          then (r, record w { replicas = r.new_replicas; policy = note_scale c w.policy })
          else (block w.replicas r, w))
      else (r, w)

  pub recorded : Calls → ScaleRecommendation × World F → World F
  unfolding record_decision
  recorded c (r, w) = record_decision c r w

  evaluated : Calls → World F → Evaluation → World F
  unfolding recorded record_decision
  evaluated c w e =
      if e.failed
      then record_decision c e.rec w
      else recorded c (apply_change c (after_cooldown c.now w.policy w.replicas e.rec) w)

  -- One evaluation of the policy; `resolved` is the evaluator of its type, and `none` an unknown type.
  pub evaluate : Option (Evaluator F) → Calls → World F → World F
  unfolding evaluated
  evaluate none c w = w
  evaluate (some ev) c w = if c.readable then evaluated c w (ev w.policy w.replicas) else w

  -- The loop of the reconciler, at the times of the calls.
  pub run : Option (Evaluator F) → List Calls → World F → World F
  run ev [] w = w
  run ev (c ∷ cs) w = run ev cs (evaluate ev c w)

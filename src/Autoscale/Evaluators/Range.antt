-- ===== src/Autoscale/Evaluators/Range.antt =====
-- Where the evaluators of internal/autoscale/evaluator let a group go.
use capper.Prelude.{
  String, Bool, true, false, not, ◌&&◌, Option, none, some, str_eq, if◌then◌else◌, ◌≡◌, refl, ◌⊎◌,
  inl, inr, arith,
}
use capper.Prelude.Int.{ℤ, pos, ltb_ℤ, add64, sub64, ◌≤ℤ◌, ◌<ℤ◌}
use capper.Autoscale.{
  Decision, scale_out, scale_in, hold, Float64, AutoscalePolicy, Evaluation, move, clamp,
  compare_to,
}
use capper.Autoscale.Evaluators.{
  target_of, target_evaluate, threshold_of, threshold_evaluate, step_of, queue_of, queue_evaluate,
}

-- The limits of a policy that make a range: no upper limit, or one that is not below the lower.
abbrev pub HasRange : ℤ → ℤ → Type 0
HasRange min max = (max ≤ℤ pos 0) ⊎ (min ≤ℤ max)

abbrev pub InRange : ℤ → ℤ → ℤ → Type 0
InRange min max v = (min ≤ℤ v) × ((max ≤ℤ pos 0) ⊎ (v ≤ℤ max))

clamp-InRange : (v min max : ℤ) → HasRange min max → InRange min max (clamp v min max)
unfolding clamp
clamp-InRange v min max h = ground arith

-- The decision is the direction from `old_replicas` to `new_replicas`.
abbrev pub Direction : Decision → ℤ → ℤ → Type 0
Direction scale_out old new = old <ℤ new
Direction scale_in old new = new <ℤ old
Direction _ old new = new ≡ old

-- An evaluation either leaves the group as it is, or proposes a size in the policy's range.
abbrev pub Sane : ℤ → ℤ → ℤ → Evaluation → Type 0
Sane min max current e =
    (e.rec.new_replicas ≡ current) ⊎ ((e.failed ≡ false) × InRange min max e.rec.new_replicas)

eq_of_bounds : (a b : ℤ) → ltb_ℤ a b ≡ false → ltb_ℤ b a ≡ false → b ≡ a
eq_of_bounds a b h k = ground arith

compare_to-Direction :
    (current desired : ℤ) → Direction (compare_to current desired).rec.decision current desired
unfolding compare_to
compare_to-Direction current desired = ground (arith, eq_of_bounds current desired)

compare_to-new :
    (current desired : ℤ)
    → ((compare_to current desired).rec.new_replicas ≡ desired)
      × ((compare_to current desired).failed ≡ false)
unfolding compare_to
compare_to-new current desired = ground arith

follows :
    (current desired : ℤ)
    → Direction
        (compare_to current desired).rec.decision
        current
        (compare_to current desired).rec.new_replicas
follows current desired =
    rw ((compare_to-new current desired).0) (compare_to-Direction current desired)

if-Direction :
    (current : ℤ) (b : Bool) (x y : Evaluation)
    → Direction x.rec.decision current x.rec.new_replicas
    → Direction y.rec.decision current y.rec.new_replicas
    → Direction (if b then x else y).rec.decision current (if b then x else y).rec.new_replicas
if-Direction current true x y p q = p
if-Direction current false x y p q = q

-- The group stays, or goes to a size in the range; and the decision says which way.
abbrev pub Good : ℤ → ℤ → ℤ → Evaluation → Type 0
Good min max current e =
    Sane min max current e × Direction e.rec.decision current e.rec.new_replicas

module _ (min max current : ℤ) where
  pub compare_to-Good :
      (v : ℤ) → HasRange min max → Good min max current (compare_to current (clamp v min max))
  compare_to-Good v h =
      let (n, f) = compare_to-new current (clamp v min max) in
      (inr (f, rw n (clamp-InRange v min max h)), follows current (clamp v min max))

  pub if-Good :
      (b : Bool) (x y : Evaluation)
      → Good min max current x
      → Good min max current y
      → Good min max current (if b then x else y)
  if-Good true x y p q = p
  if-Good false x y p q = q

  if-Sane :
      (b : Bool) (x y : Evaluation)
      → Sane min max current x
      → Sane min max current y
      → Sane min max current (if b then x else y)
  if-Sane true x y p q = p
  if-Sane false x y p q = q

  ladder-Sane :
      (b c : Bool) (d e : Decision) (v w : ℤ)
      → HasRange min max
      → Sane min max current (
          if b
          then move d current (clamp v min max)
          else if c
          then move e current (clamp w min max)
          else move hold current current)
  ladder-Sane true c d e v w h = inr (refl, clamp-InRange v min max h)
  ladder-Sane false true d e v w h = inr (refl, clamp-InRange w min max h)
  ladder-Sane false false d e v w h = inl refl

module _ (fl : Float64) where
  open fl use {F, of_int, lt, le}

  target_of-Good :
      (policy : AutoscalePolicy F) (current : ℤ) (o : Option F)
      → HasRange policy.min_replicas policy.max_replicas
      → Good policy.min_replicas policy.max_replicas current (target_of fl policy current o)
  unfolding target_of
  target_of-Good policy current none h = (inl refl, refl)
  target_of-Good policy current (some val) h =
      if-Good _ _ current (le policy.target_value (of_int (pos 0))) _ _ (inl refl, refl)
        (compare_to-Good _ _ current _ h)

  -- With limits that make a range, the target evaluator leaves a group as it is or proposes a size
  -- between the limits; and the decision is the direction in which the proposed size lies.
  pub target_evaluate-Good :
      (query : String → String → Option F) (policy : AutoscalePolicy F) (current : ℤ)
      → HasRange policy.min_replicas policy.max_replicas
      → Good policy.min_replicas policy.max_replicas current
          (target_evaluate fl query policy current)
  unfolding target_evaluate
  target_evaluate-Good query policy current h =
      if-Good _ _ current (not policy.enabled) _ _ (inl refl, refl)
        (target_of-Good policy current _ h)

  target_of-Direction :
      (policy : AutoscalePolicy F) (current : ℤ) (o : Option F)
      → Direction
          (target_of fl policy current o).rec.decision
          current
          (target_of fl policy current o).rec.new_replicas
  unfolding target_of
  target_of-Direction policy current none = refl
  target_of-Direction policy current (some val) =
      if-Direction current (le policy.target_value (of_int (pos 0))) _ _ refl (follows current _)

  pub target_evaluate-Direction :
      (query : String → String → Option F) (policy : AutoscalePolicy F) (current : ℤ)
      → Direction
          (target_evaluate fl query policy current).rec.decision
          current
          (target_evaluate fl query policy current).rec.new_replicas
  unfolding target_evaluate
  target_evaluate-Direction query policy current =
      if-Direction current (not policy.enabled) _ _ refl (target_of-Direction policy current _)

  queue_of-Good :
      (policy : AutoscalePolicy F) (current : ℤ) (o : Option ℤ)
      → HasRange policy.min_replicas policy.max_replicas
      → Good policy.min_replicas policy.max_replicas current (queue_of fl policy current o)
  unfolding queue_of
  queue_of-Good policy current none h = (inl refl, refl)
  queue_of-Good policy current (some depth) h = compare_to-Good _ _ current _ h

  -- With limits that make a range, the queue evaluator leaves a group as it is or proposes a size
  -- between the limits; and the decision is the direction in which the proposed size lies. This holds
  -- of a policy without a queue too.
  queue_evaluate-Good :
      (depth : String → Option ℤ) (policy : AutoscalePolicy F) (current : ℤ)
      → HasRange policy.min_replicas policy.max_replicas
      → Good policy.min_replicas policy.max_replicas current
          (queue_evaluate fl depth policy current)
  unfolding queue_evaluate
  queue_evaluate-Good depth policy current h =
      if-Good _ _ current (not policy.enabled) _ _ (inl refl, refl)
        (if-Good _ _ current (str_eq policy.queue_name "") _ _ (inl refl, refl)
          (queue_of-Good policy current _ h))

  threshold_of-Sane :
      (policy : AutoscalePolicy F) (current : ℤ) (o : Option F)
      → HasRange policy.min_replicas policy.max_replicas
      → Sane policy.min_replicas policy.max_replicas current (threshold_of fl policy current o)
  unfolding threshold_of
  threshold_of-Sane policy current none h = inl refl
  threshold_of-Sane policy current (some val) h =
      ladder-Sane policy.min_replicas policy.max_replicas current
        (lt (of_int (pos 0)) policy.scale_out_threshold && le policy.scale_out_threshold val)
        (lt (of_int (pos 0)) policy.scale_in_threshold && le val policy.scale_in_threshold)
        scale_out scale_in (add64 current (step_of fl policy.scale_out_step))
        (sub64 current (step_of fl policy.scale_in_step)) h

  -- With limits that make a range, the threshold evaluator leaves a group as it is or proposes a size
  -- between the limits.
  pub threshold_evaluate-Sane :
      (query : String → String → Option F) (policy : AutoscalePolicy F) (current : ℤ)
      → HasRange policy.min_replicas policy.max_replicas
      → Sane policy.min_replicas policy.max_replicas current
          (threshold_evaluate fl query policy current)
  unfolding threshold_evaluate
  threshold_evaluate-Sane query policy current h =
      if-Sane _ _ current (not policy.enabled) _ _ (inl refl) (threshold_of-Sane policy current _ h)

  -- Of a group that is larger than the policy's upper limit the threshold evaluator says "scale out"
  -- at a high metric, and proposes fewer replicas than there are. (The policy is enabled, its limits
  -- make a range, the metric can be read, and the step does not overflow.)
  pub threshold_evaluate_shrinks :
      (query : String → String → Option F) (policy : AutoscalePolicy F) (current : ℤ) (val : F)
      → policy.enabled ≡ true
      → query policy.group_id policy.metric_name ≡ some val
      → lt (of_int (pos 0)) policy.scale_out_threshold ≡ true
      → le policy.scale_out_threshold val ≡ true
      → pos 0 <ℤ policy.max_replicas
      → policy.min_replicas ≤ℤ policy.max_replicas
      → policy.max_replicas <ℤ current
      → policy.max_replicas <ℤ add64 current (step_of fl policy.scale_out_step)
      → ((threshold_evaluate fl query policy current).rec.decision ≡ scale_out)
        × ((threshold_evaluate fl query policy current).rec.new_replicas <ℤ current)
  unfolding threshold_evaluate threshold_of clamp
  threshold_evaluate_shrinks query policy current val en q a b p r c d = ground (arith, q)

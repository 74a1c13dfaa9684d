-- ===== src/Autoscale/Cron/Latest.antt =====
-- What the schedule evaluator of internal/autoscale/evaluator/schedule.go finds.
use capper.Prelude.{
  ℕ, zero, suc, ◌+◌, ◌-◌, ◌<◌, ◌≤◌, String, Bool, true, false, not, ◌||◌, List, Option, none, some,
  ltb, ltb→lt, if◌then◌else◌, ◌≡◌, refl, ◌⊎◌, inl, inr, arith, ap, Bool-cases, str_eq,
}
use capper.Prelude.Bytes.{Bytes}
use capper.Prelude.Int.{ℤ}
use capper.Autoscale.{AutoscalePolicy}
use capper.Autoscale.Evaluators.Range.{HasRange, Good, compare_to-Good, if-Good}
use capper.Autoscale.Cron.{
  Calendar, ScheduleEntry, walk_back, week, last_fired, words, match_cron, five, best_entry, chosen,
  scheduled, schedule_evaluate,
}

walk_back-some :
    (fires : ℕ → Bool) (n t u s : ℕ)
    → n ≤ suc t
    → walk_back fires n t ≡ some u
    → (fires u ≡ true) × (u ≤ t) × (t < u + n)
unfolding walk_back
walk_back-some fires zero t u s h e = absurd (cc)
walk_back-some fires (suc n) zero u s h e = elim (Bool-cases (fires 0)) [
  | inl f ↦ ground arith
  | inr f ↦ let z : n ≡ 0 = omega arith in absurd (empty z (ground arith))
]
  where
    empty : n ≡ 0 → walk_back fires n 0 ≡ some u → ⊥
    empty z k = ground (arith, ap (λ m. walk_back fires m 0) z)
walk_back-some fires (suc n) (suc t) u s h e =
    let d : suc t - 1 ≡ t = omega arith in
    elim (Bool-cases (fires (suc t))) [
      | inl f ↦ ground arith
      | inr f ↦
          let r = walk_back-some fires n t u s (omega arith) (ground (arith, d)) in
          (r.0, omega arith, omega arith)
    ]

walk_back-between :
    (fires : ℕ → Bool) (n t u s : ℕ)
    → walk_back fires n t ≡ some u
    → u < s
    → s ≤ t
    → fires s ≡ false
unfolding walk_back
walk_back-between fires zero t u s e h k = absurd (cc)
walk_back-between fires (suc n) t u s e h k = elim (Bool-cases (fires t)) [
  | inl f ↦ absurd (ground arith)
  | inr f ↦ elim (Bool-cases (ltb s t)) [
    | inl b ↦ walk_back-between fires n (t - 1) u s (ground arith) h (ground arith)
    | inr b ↦ let same : s ≡ t = ground arith in rw same f
  ]
]

walk_back-after :
    (fires : ℕ → Bool) (n t u s : ℕ)
    → walk_back fires n t ≡ some u
    → (s ≤ u) ⊎ ((t < s) ⊎ (fires s ≡ false))
walk_back-after fires n t u s found = elim (Bool-cases (ltb u s)) [
  | inl h ↦ elim (Bool-cases (ltb t s)) [
    | inl k ↦ inr (inl (ltb→lt t s k))
    | inr k ↦ inr (inr (walk_back-between fires n t u s found (ltb→lt u s h) (not_ltb t s k)))
  ]
  | inr h ↦ inl (not_ltb u s h)
]
  where
    not_ltb : (a b : ℕ) → ltb a b ≡ false → b ≤ a
    not_ltb a b h = ground arith

-- A minute at which an expression last fired matches it, is not in the future and lies within a week;
-- and no minute after it matches, up to the present one. (The present is at least a week after the
-- origin.)
pub last_fired_latest :
    (cal : Calendar) (expr : Bytes) (now u s : ℕ)
    → week ≤ now
    → last_fired cal expr now ≡ some u
    → (match_cron cal (words expr) u ≡ true)
      × (u ≤ now)
      × (now < u + week)
      × ((s ≤ u) ⊎ ((now < s) ⊎ (match_cron cal (words expr) s ≡ false)))
unfolding last_fired
last_fired_latest cal expr now u s w e =
    let fires = match_cron cal (words expr) in
    let found : walk_back fires week now ≡ some u = searched (five (words expr)) e in
    let r = walk_back-some fires week now u s (omega arith) found in
    (r.0, r.1, r.2, walk_back-after fires week now u s found)
  where
    searched :
        (b : Bool)
        → (if b then walk_back (match_cron cal (words expr)) week now else none) ≡ some u
        → walk_back (match_cron cal (words expr)) week now ≡ some u
    searched true p = p
    searched false p = absurd (cc)

module _ {F : Type 0} (policy : AutoscalePolicy F) (current : ℤ)
    (h : HasRange policy.min_replicas policy.max_replicas) where
  chosen-Good :
      (o : Option (ScheduleEntry × ℕ))
      → Good policy.min_replicas policy.max_replicas current (chosen policy current o)
  unfolding chosen
  chosen-Good none = (inl refl, refl)
  chosen-Good (some (e, t)) = compare_to-Good _ _ current _ h

  scheduled-Good :
      (cal : Calendar) (now : ℕ) (o : Option (List ScheduleEntry))
      → Good policy.min_replicas policy.max_replicas current (scheduled cal now policy current o)
  unfolding scheduled
  scheduled-Good cal now none = (inl refl, refl)
  scheduled-Good cal now (some es) = chosen-Good (best_entry cal now none es)

  -- With limits that make a range, the schedule evaluator leaves a group as it is or proposes a size
  -- between the limits, whatever an entry asks for; and the decision is the direction of that size.
  pub schedule_evaluate-Good :
      (cal : Calendar) (unmarshal : String → Option (List ScheduleEntry)) (now : ℕ)
      → Good policy.min_replicas policy.max_replicas current
          (schedule_evaluate cal unmarshal now policy current)
  unfolding schedule_evaluate
  schedule_evaluate-Good cal unmarshal now =
      if-Good _ _ current (not policy.enabled) _ _ (inl refl, refl)
        (if-Good _ _ current (str_eq policy.schedule_json "" || str_eq policy.schedule_json "[]") _
          _ (inl refl, refl) (scheduled-Good cal now (unmarshal policy.schedule_json)))

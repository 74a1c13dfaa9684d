-- ===== src/Autoscale/Reconcile/Cooldown.antt =====
-- The cooldown of internal/autoscale/reconciler.go: after a change the group keeps its size for a while.
use capper.Prelude.{
  ℕ, Bool-cases, not, ◌&&◌, ap, ◌+◌, ◌*◌, ◌<◌, true, String, Option, List, [], ◌∷◌, some, ◌≡◌, ◌∙◌,
  refl, ◌≢◌, ◌/◌, ◌⊎◌, inl, inr, arith, All,
}
use capper.Prelude.Int.{ℤ, pos, eq_ℤ, wrap64, ◌≤ℤ◌, ◌<ℤ◌}
use capper.Autoscale.{
  Decision, scale_out, scale_in, hold, blocked, disabled, error, AutoscalePolicy, Float64,
  ScaleRecommendation,
}
use capper.Autoscale.Evaluators.{target_evaluate}
use capper.Autoscale.Evaluators.Range.{Direction, target_evaluate-Direction}
use capper.Autoscale.Reconcile.{
  World, Calls, Evaluator, is_move, cooldown, needed, cooldown_blocked, after_cooldown,
  apply_change, note_scale, recorded, record_decision, evaluated, evaluate, run,
}

-- An evaluator proposes another size only together with a decision to scale.
abbrev pub Honest : {F : Type 0} → Evaluator F → Type 0
Honest {F} ev =
    (p : AutoscalePolicy F) (current : ℤ)
    → (is_move (ev p current).rec.decision ≡ true) ⊎ ((ev p current).rec.new_replicas ≡ current)

-- `n` seconds are no more than the cooldown of either direction, and neither overflows.
abbrev pub Cools : {F : Type 0} → ℕ → AutoscalePolicy F → Type 0
Cools n p =
    (pos n ≤ℤ cooldown p scale_out)
    × (cooldown p scale_out <ℤ pos 9_000_000_000)
    × (pos n ≤ℤ cooldown p scale_in)
    × (cooldown p scale_in <ℤ pos 9_000_000_000)

module _ {F : Type 0} (p : AutoscalePolicy F) (n t now : ℕ) where
  needed-large : (c : ℤ) → pos n ≤ℤ c → c <ℤ pos 9_000_000_000 → pos (n * 1_000_000_000) ≤ℤ needed c
  unfolding wrap64
  needed-large c h k = ground arith

  blocked_before :
      (d : Decision)
      → p.last_scale_at ≡ some t
      → now < (t + n) * 1_000_000_000
      → pos n ≤ℤ cooldown p d
      → cooldown p d <ℤ pos 9_000_000_000
      → cooldown_blocked now p d ≡ true
  unfolding cooldown_blocked
  blocked_before d e h k l = ground (arith, e, needed-large (cooldown p d) k l)

eq_ℤ_self : (a : ℤ) → eq_ℤ a a ≡ true
eq_ℤ_self a = ground arith

module _ {F : Type 0} where
  decision_blocked :
      (p : AutoscalePolicy F) (n t now : ℕ) (d : Decision)
      → p.last_scale_at ≡ some t
      → now < (t + n) * 1_000_000_000
      → Cools n p
      → is_move d ≡ true
      → cooldown_blocked now p d ≡ true
  unfolding is_move
  decision_blocked p n t now scale_out e h k m = blocked_before p n t now scale_out e h k.0 k.1
  decision_blocked p n t now scale_in e h k m = blocked_before p n t now scale_in e h k.2 k.3
  decision_blocked p n t now hold e h k m = cc
  decision_blocked p n t now blocked e h k m = cc
  decision_blocked p n t now disabled e h k m = cc
  decision_blocked p n t now error e h k m = cc

  apply_change-same :
      (c : Calls) (r : ScaleRecommendation) (w : World F)
      → r.new_replicas ≡ w.replicas
      → (apply_change c r w).1 ≡ w
  unfolding apply_change
  apply_change-same c r w e = ground (arith, eq_ℤ_self w.replicas)

  after_cooldown-same :
      (n t now : ℕ) (p : AutoscalePolicy F) (current : ℤ) (r : ScaleRecommendation)
      → p.last_scale_at ≡ some t
      → now < (t + n) * 1_000_000_000
      → Cools n p
      → (is_move r.decision ≡ true) ⊎ (r.new_replicas ≡ current)
      → (after_cooldown now p current r).new_replicas ≡ current
  unfolding after_cooldown
  after_cooldown-same n t now p current r e h k (inl m) =
      ground (arith, decision_blocked p n t now r.decision e h k m)
  after_cooldown-same n t now p current r e h k (inr m) = ground arith

  evaluate-steady :
      (ev : Evaluator F) (n t : ℕ) (c : Calls) (w : World F)
      → Honest ev
      → w.policy.last_scale_at ≡ some t
      → c.now < (t + n) * 1_000_000_000
      → Cools n w.policy
      → ((evaluate (some ev) c w).replicas ≡ w.replicas)
        × ((evaluate (some ev) c w).policy ≡ w.policy)
  unfolding evaluate evaluated
  evaluate-steady ev n t c w honest e h k =
      let r = (ev w.policy w.replicas).rec in
      let same =
        after_cooldown-same n t c.now w.policy w.replicas r e h k (honest w.policy w.replicas) in
      let kept = apply_change-same c (after_cooldown c.now w.policy w.replicas r) w same in
      (ground (arith, kept), ground (arith, kept))

  run-steady :
      (ev : Evaluator F) (n t : ℕ) (cs : List Calls) (w : World F)
      → Honest ev
      → w.policy.last_scale_at ≡ some t
      → All (λ c. c.now < (t + n) * 1_000_000_000) cs
      → Cools n w.policy
      → (run (some ev) cs w).replicas ≡ w.replicas
  unfolding run
  run-steady ev n t [] w honest e h k = refl
  run-steady ev n t (c ∷ cs) w honest e h k =
      let (r, p) = evaluate-steady ev n t c w honest e h.0 k in
      run-steady ev n t cs (evaluate (some ev) c w) honest (rw p e) h.1 (rw p k) ∙ r

  abbrev noted : Calls → AutoscalePolicy F → AutoscalePolicy F
  noted c p = record p { last_scale_at = some (c.now / 1_000_000_000) }

  noted-Cools : (n : ℕ) (c : Calls) (p : AutoscalePolicy F) → Cools n p → Cools n (noted c p)
  unfolding cooldown
  noted-Cools n c p k = k

  -- The size is as before, or the time of the change is in the policy.
  abbrev Noted : Calls → World F → World F → Type 0
  Noted c w v = (v.replicas ≡ w.replicas) ⊎ (v.policy ≡ noted c w.policy)

  apply_change-Noted :
      (c : Calls) (r : ScaleRecommendation) (w : World F)
      → c.notable ≡ true
      → Noted c w (apply_change c r w).1
  unfolding apply_change note_scale
  apply_change-Noted c r w h =
      elim (Bool-cases (not r.blocked && not (eq_ℤ r.new_replicas w.replicas))) [
        | inl e ↦ elim (Bool-cases c.settable) [
          | inl g ↦ rw (e, g, h) (inr refl)
          | inr g ↦ rw (e, g) (inl refl)
        ]
        | inr e ↦ rw e (inl refl)
      ]

  record_decision-Noted :
      (c : Calls) (r : ScaleRecommendation) (w v : World F)
      → Noted c w v
      → Noted c w (record_decision c r v)
  unfolding record_decision
  record_decision-Noted c r w v h = elim (Bool-cases c.recordable) [
    | inl e ↦ rw e h
    | inr e ↦ rw e h
  ]

  evaluate-Noted :
      (ev : Evaluator F) (c : Calls) (w : World F)
      → c.notable ≡ true
      → Noted c w (evaluate (some ev) c w)
  unfolding evaluate evaluated recorded apply_change
  evaluate-Noted ev c w h = elim (Bool-cases c.readable) [
    | inl e ↦ elim (Bool-cases (ev w.policy w.replicas).failed) [
      | inl g ↦ rw (e, g) (record_decision-Noted c (ev w.policy w.replicas).rec w w (inl refl))
      | inr g ↦
          let r = after_cooldown c.now w.policy w.replicas (ev w.policy w.replicas).rec in
          rw (e, g)
            (record_decision-Noted c (apply_change c r w).0 w (apply_change c r w).1
              (apply_change-Noted c r w h))
    ]
    | inr e ↦ rw e (inl refl)
  ]

  -- Once an evaluation of a policy has changed the size of its group, and the note of its time did not
  -- fail, no later evaluation of the policy changes it before `n` seconds have passed since the second of
  -- the change, where `n` seconds are no more than the policy's cooldowns (60 and 300 where none is set,
  -- and below 9 * 10 ^ 9), whatever the metrics do and whichever calls fail. The evaluator proposes another
  -- size only together with a decision to scale.
  pub run_scaled :
      (ev : Evaluator F) (n : ℕ) (c : Calls) (cs : List Calls) (w : World F)
      → Honest ev
      → (evaluate (some ev) c w).replicas ≢ w.replicas
      → c.notable ≡ true
      → All (λ e. e.now < (c.now / 1_000_000_000 + n) * 1_000_000_000) cs
      → Cools n w.policy
      → (run (some ev) (c ∷ cs) w).replicas ≡ (evaluate (some ev) c w).replicas
  unfolding run
  run_scaled ev n c cs w honest changed kept h k = elim (evaluate-Noted ev c w kept) [
    | inl same ↦ absurd (changed same)
    | inr p ↦
        run-steady ev n (c.now / 1_000_000_000) cs (evaluate (some ev) c w) honest
          (ap (λ q. q.last_scale_at) p) h (rw p (noted-Cools n c w.policy k))
  ]

Direction-Honest :
    (d : Decision) (old new : ℤ) → Direction d old new → (is_move d ≡ true) ⊎ (new ≡ old)
unfolding is_move
Direction-Honest scale_out old new h = inl refl
Direction-Honest scale_in old new h = inl refl
Direction-Honest hold old new h = inr h
Direction-Honest blocked old new h = inr h
Direction-Honest disabled old new h = inr h
Direction-Honest error old new h = inr h

-- The target evaluator proposes another size only together with a decision to scale, for any policy.
pub target_evaluate-Honest :
    (fl : Float64) (query : String → String → Option fl.F) → Honest (target_evaluate fl query)
target_evaluate-Honest fl query p current =
    Direction-Honest _ _ _ (target_evaluate-Direction fl query p current)

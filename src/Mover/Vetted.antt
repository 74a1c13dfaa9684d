-- ===== src/Mover/Vetted.antt =====
-- The plans and the jobs that the tables of internal/vpcmover can hold, kept by each call.
pub mod Keep
pub mod Run
use capper.Prelude.{
  ℕ, String, Bool, true, false, not, List, [], ◌∷◌, Option, none, some, ◌≡◌, refl, sym, ◌∙◌, ap,
  subst, ◌⊎◌, inl, inr, eq_iff, str_eq, map, any, find, find-All, find-passes, arith, All, All-map,
  length, ◌==◌, Bool-cases, Option-cases, if◌then◌else◌,
}
use capper.Prelude.Action.{Result, ok, err, ◌>>=◌, ◌>>◌, bound}
use mathlib.Core.Option.{map as omap}
use capper.Mover
use capper.Mover.{
  Db, Job, Plan, Lock, Faults, Error, Act, refuse_if, ignored, state_of, with_status, plan_blocked,
}
use capper.Mover.Planner
use capper.Mover.Planner.{World, PlanRequest, plan_of, check_compatibility, code_if}
use capper.Mover.Frames.{Frames, shape, plan_ids}

abbrev pub named : String → List Plan → Option Plan
named id ps = find (λ p. str_eq p.id id) ps

unfoldable pub IsClean : List Plan → String → Type 0
IsClean ps id = (p : Plan) × (named id ps ≡ some p) × (p.errors ≡ [])

abbrev pub HasVerdict : Plan → Type 0
HasVerdict p = (p.errors ≡ []) ⊎ (p.status ≡ plan_blocked)

pub record IsVetted (d : Db) : Type 0 where
  pub verdicts : (id : String) (p : Plan) → named id d.plans ≡ some p → HasVerdict p
  pub clean_jobs : All (IsClean d.plans) (plan_ids d.jobs)

pub named-id : (id : String) (ps : List Plan) (p : Plan) → named id ps ≡ some p → p.id ≡ id
named-id id ps p e = (eq_iff p.id id).0 (find-passes (λ q. str_eq q.id id) ps p e)

some-eq : {A : Type 0} {a b : A} → some a ≡ some b → a ≡ b
some-eq e = ground (arith, e)

module _ (id status : String) where
  mark-id : (q : Plan) → (with_status id status q).id ≡ q.id
  mark-id q = ground arith

  mark-errors : (q : Plan) → (with_status id status q).errors ≡ q.errors
  mark-errors q = ground arith

  named-mark :
      (i : String) (ps : List Plan)
      → named i (map (with_status id status) ps) ≡ omap (with_status id status) (named i ps)
  named-mark i [] = refl
  named-mark i (q ∷ ps) = ground (arith, mark-id q, named-mark i ps)

  pub mark-IsClean :
      (i : String) (ps : List Plan) → IsClean ps i → IsClean (map (with_status id status) ps) i
  unfolding IsClean
  mark-IsClean i ps (p, e, c) = (
    with_status id status p,
    named-mark i ps ∙ ap (omap (with_status id status)) e,
    mark-errors p ∙ c,
  )

  -- The plan marked has no errors; another plan is as it was.
  marked-HasVerdict :
      (i : String) (ps : List Plan) (q : Plan)
      → IsClean ps id
      → named i ps ≡ some q
      → HasVerdict q
      → HasVerdict (with_status id status q)
  unfolding IsClean
  marked-HasVerdict i ps q (p, e, c) found v =
      ground (arith, e, c, found, v, eq_iff q.id id, named-id i ps q found)

  pub mark-IsVetted :
      (d : Db)
      → IsVetted d
      → IsClean d.plans id
      → IsVetted (record d { plans = map (with_status id status) d.plans })
  mark-IsVetted d v c = record {
    verdicts = λ i p e. elim (Option-cases (named i d.plans)) [
      | inl n ↦ absurd ground (arith, named-mark i d.plans, n, e)
      | inr (q, n) ↦
          subst HasVerdict
            (some-eq (sym (ap (omap (with_status id status)) n) ∙ sym (named-mark i d.plans) ∙ e))
            (marked-HasVerdict i d.plans q c n (v.verdicts i q n))
    ];
    clean_jobs =
        All-map (IsClean d.plans) (IsClean (map (with_status id status) d.plans))
          (λ i. mark-IsClean i d.plans) (plan_ids d.jobs) v.clean_jobs;
  }

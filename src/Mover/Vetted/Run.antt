-- ===== src/Mover/Vetted/Run.antt =====
-- The calls of internal/vpcmover, one by one and in turn, on vetted tables.
use capper.Prelude.{
  String, false, List, [], ◌∷◌, ◌≡◌, refl, inl, inr, eq_iff, str_eq, any, arith, All-map, ◌⊎◌,
  length, ◌==◌, Bool-cases, if◌then◌else◌,
}
use capper.Prelude.Triple.{bind-Triple, then-Triple, state-Triple, state-after}
use capper.Mover
use capper.Mover.{
  Db, Job, Plan, Lock, Faults, Error, Act, refuse_if, ignored, state_of, with_status, plan_blocked,
  plan_validated, plan_approved, found,
}
use capper.Mover.Planner
use capper.Mover.Planner.{World, PlanRequest, plan_of, job_of, check_compatibility, code_if}
use capper.Mover.Executor
use capper.Mover.Frames
use capper.Mover.Frames.Jobs
use capper.Mover.Frames.{Frames, shape, plan_ids}
use capper.Mover.Calls.{
  Call, apply, run, plan, approve, cancel_job, rollback, cancel, start, execute,
}
use capper.Mover.Vetted.{IsVetted, IsClean, HasVerdict}
use capper.Mover.Vetted.Keep.{
  Backed, Looked, Kept, Frames-Kept, Frames-Backed, ignored-Backed, mark-Backed, create_job-Kept,
  find_plan-Looked, find_job-Backed, guard-Cleared, any-named,
}

approve_plan-Kept : (w : World) (id : String) → Kept IsVetted (Planner.approve_plan w id) IsVetted
unfolding Planner.approve_plan
approve_plan-Kept w id = bind-Triple IsVetted (Looked id) (find_plan-Looked (w.fails 0) id) (λ p.
    guard-Cleared (w.fails 0) id p plan_validated Mover.not_validated refl (λ same.
      state-Triple IsVetted IsVetted (λ d v. v)
        (λ d b. (mark-Backed (w.fails 0) id plan_approved d b).0)))

start_job-Kept :
    (w : World) (id created_by : String)
    → Kept IsVetted (Planner.start_job w id created_by) IsVetted
unfolding Planner.start_job
start_job-Kept w id created_by =
    bind-Triple IsVetted (Looked id) (find_plan-Looked (w.fails 0) id) (λ p.
      guard-Cleared (w.fails 0) id p plan_approved Mover.not_approved refl (λ same.
        then-Triple IsVetted (Backed id)
          (Frames-Backed id (
            Frames.acquire_lock-Frames (w.fails 0) (record {
              id = w.new_lock;
              vpc_id = p.source_vpc_id;
              lock_type = Mover.lock_move;
              job_id = "";
            })))
          (then-Triple IsVetted (Backed id)
            (ignored-Backed (Mover.update_plan_status (w.fails 0) id Mover.plan_executing) id
              (mark-Backed (w.fails 0) id Mover.plan_executing))
            (create_job-Kept (w.fails 0) id (job_of w p created_by) same))))

rollback-Kept : (w : World) (id : String) → Kept IsVetted (Executor.rollback w id) IsVetted
unfolding Executor.rollback
rollback-Kept w id =
    bind-Triple IsVetted (λ j. Backed j.plan_id) (find_job-Backed (w.fails 0) id)
      (λ j.
        bind-Triple IsVetted (λ saved. IsVetted) (create_job-Kept (w.fails 0) j.plan_id _ refl)
          (λ saved. Frames-Kept (
            Frames.then-Frames
              (Frames.create_step-Frames (w.fails 1)
                (Executor.rollback_step w saved 1 "cleanup-destination"))
              (Frames.bind-Frames
                (Frames.create_step-Frames (w.fails 2)
                  (Executor.rollback_step w saved 2 "release-locks"))
                (λ u. Frames.pure-Frames saved)))))

-- A plan with a new id hides no other.
insert-IsClean :
    (ps : List Plan) (p : Plan) (i : String)
    → any (λ q. str_eq q.id p.id) ps ≡ false
    → IsClean ps i
    → IsClean (p ∷ ps) i
unfolding IsClean
insert-IsClean ps p i new (q, e, c) =
    (q, ground (arith, new, e, eq_iff p.id i, any-named i ps q e), c)

create_plan-Kept :
    (f : Faults) (p : Plan) → HasVerdict p → Kept IsVetted (Mover.create_plan f p) IsVetted
unfolding Mover.create_plan
create_plan-Kept f p verdict =
    state-Triple IsVetted IsVetted (λ d v. v)
      (λ d v. elim (Bool-cases (f Mover.insert_plan)) [
        | inl h ↦ rw h v
        | inr h ↦ rw h (elim (Bool-cases (any (λ q. str_eq q.id p.id) d.plans)) [
          | inl t ↦ rw t v
          | inr t ↦ rw t record {
            verdicts = λ i q e. ground (arith, e, verdict, v.verdicts i q);
            clean_jobs =
                All-map (IsClean d.plans) (IsClean (p ∷ d.plans))
                  (λ i. insert-IsClean d.plans p i t) (plan_ids d.jobs) v.clean_jobs;
          }
        ])
      ])

plan_of-HasVerdict :
    (w : World) (req : PlanRequest) (ls : List Lock) → HasVerdict (plan_of w req ls)
plan_of-HasVerdict w req ls = go (plan_of w req ls).errors
  where
    go :
        (es : List String)
        → (es ≡ []) ⊎ ((if length es == 0 then plan_validated else plan_blocked) ≡ plan_blocked)
    go [] = inl refl
    go (x ∷ es) = inr (ground arith)

plan-Kept : (w : World) (req : PlanRequest) → Kept IsVetted (Planner.plan w req) IsVetted
unfolding Planner.plan
plan-Kept w req =
    bind-Triple IsVetted (λ ls. IsVetted)
      (Frames-Kept (Frames.locks_of-Frames (w.fails 0) req.source_vpc_id))
      (λ ls. create_plan-Kept (w.fails 0) (plan_of w req ls) (plan_of-HasVerdict w req ls))

cancel_job-Frames : (w : World) (id : String) → Frames (Planner.cancel_job w id)
unfolding Planner.cancel_job
cancel_job-Frames w id = Frames.bind-Frames (Frames.find_job-Frames (w.fails 0) id) (λ j.
    Frames.then-Frames (Frames.refuse-Frames _ _) (
      Frames.then-Frames
        (Frames.ignored-Frames (
          Frames.update_job_status-Frames (w.fails 0) id "cancelled" j.current_step
            j.progress_percent))
        (Frames.ignored-Frames
          (Frames.release_lock-Frames (w.fails 0) j.source_vpc_id Mover.lock_move))))

cancel-Frames : (w : World) (id : String) → Frames (Executor.cancel w id)
unfolding Executor.cancel
cancel-Frames w id =
    Frames.ignored-Frames (Frames.mark_failed-Frames (w.fails 0) id "cancelled by user")

apply-Kept : (w : World) (c : Call) (d : Db) → IsVetted d → IsVetted (apply w c d)
apply-Kept w (plan req) = state-after IsVetted (Planner.plan w req) (plan-Kept w req)
apply-Kept w (approve id) =
    state-after IsVetted (Planner.approve_plan w id) (approve_plan-Kept w id)
apply-Kept w (cancel_job id) =
    state-after IsVetted (Planner.cancel_job w id) (Frames-Kept (cancel_job-Frames w id))
apply-Kept w (rollback id) = state-after IsVetted (Executor.rollback w id) (rollback-Kept w id)
apply-Kept w (cancel id) =
    state-after IsVetted (Executor.cancel w id) (Frames-Kept (cancel-Frames w id))
apply-Kept w (start id created_by) =
    state-after IsVetted (Planner.start_job w id created_by) (start_job-Kept w id created_by)
apply-Kept w (execute job interrupts) =
    state-after IsVetted (Executor.execute w interrupts job)
      (Frames-Kept (Jobs.execute-Frames w interrupts job))

-- Calls in any order, with any statement failing and steps interrupted anywhere, keep that a plan with errors is
-- blocked, and that each job is of a plan, as it is looked up by its id, that has no errors.
pub run-IsVetted : (cs : List (World × Call)) (d : Db) → IsVetted d → IsVetted (run cs d)
run-IsVetted [] d v = v
run-IsVetted ((w, c) ∷ cs) d v = run-IsVetted cs (apply w c d) (apply-Kept w c d v)

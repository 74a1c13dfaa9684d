-- ===== src/Mover/Started.antt =====
-- The job that internal/vpcmover starts for a plan, and its run.
use capper.Prelude.{
  ℕ, String, Bool, false, ◌||◌, List, [], ◌∷◌, some, ◌≡◌, refl, str_eq, eq_iff, map, any, keep,
  find, arith, if◌then◌else◌,
}
use capper.Prelude.Action.{ok}
use capper.Mover
use capper.Mover.{Db, Job, Step, Lock, Plan, Statement, Faults, with_status, holds}
use capper.Mover.Planner
use capper.Mover.Planner.{World, job_of}
use capper.Mover.Executor
use capper.Mover.Executor.{execute_plan}

fresh-map :
    (id : String) (g : Job → Job) (js : List Job)
    → any (λ k. str_eq k.id id) js ≡ false
    → map (λ j. if str_eq j.id id then g j else j) js ≡ js
fresh-map id g [] h = refl
fresh-map id g (j ∷ js) h = ground (arith, fresh-map id g js)

abbrev pub move_lock : World → Plan → Lock
move_lock w p = record {
  id = w.new_lock;
  vpc_id = p.source_vpc_id;
  lock_type = Mover.lock_move;
  job_id = "";
}

module _ (w w' : World) (interrupts : ℕ → Bool) (id created_by : String) (p : Plan) (d : Db)
    (sound : (s : Statement) → w.fails 0 s ≡ false)
    (sound' : (s : Statement) → w'.fails 0 s ≡ false)
    (there : find (λ q. str_eq q.id id) d.plans ≡ some p)
    (approved : p.status ≡ Mover.plan_approved)
    (unlocked : any (λ k. str_eq k.id w.new_lock || holds p.source_vpc_id Mover.lock_move k) d.locks
      ≡ false)
    (new : any (λ k. str_eq k.id w.new_job) d.jobs ≡ false)
    (none_yet : keep (λ s. str_eq s.job_id w.new_job) d.steps ≡ []) where
  abbrev started : Db
  started = record {
    plans = map (with_status id Mover.plan_executing) d.plans;
    jobs = job_of w p created_by ∷ d.jobs;
    steps = d.steps;
    locks = move_lock w p ∷ d.locks;
  }

  start_job-approved : Planner.start_job w id created_by d ≡ (ok (job_of w p created_by), started)
  unfolding Planner.start_job Mover.find_plan Mover.acquire_lock Mover.update_plan_status
      Mover.create_job
  start_job-approved = simp (
    sound Mover.get_plan,
    there,
    approved,
    sound Mover.insert_lock,
    unlocked,
    sound Mover.update_plan,
    sound Mover.insert_job,
    new,
  )

  execute-started : Executor.execute w' interrupts (job_of w p created_by) started ≡ (
    ok tt,
    record started {
      jobs =
          record (job_of w p created_by) { status = "completed"; progress_percent = 100 } ∷ d.jobs;
    },
  )
  unfolding Executor.execute Executor.run_steps Mover.steps_of Mover.by_order Mover.mark_completed
  execute-started = simp (
    sound' Mover.list_steps,
    none_yet,
    sound' Mover.complete_job,
    (eq_iff w.new_job w.new_job).1 refl,
    fresh-map w.new_job (λ j. record j { status = "completed"; progress_percent = 100 }) d.jobs new,
  )

  -- A plan that is approved, run with no statement failing on a VPC without a move lock, gives a job with a new id, to
  -- which no step belongs: the job is completed at 100 percent, no step of the plan is dispatched or stored, the plan
  -- is executing and the VPC's move lock stays held.
  pub execute_plan_completed : execute_plan w interrupts w' id created_by d ≡ (
    ok (job_of w p created_by),
    record started {
      jobs =
          record (job_of w p created_by) { status = "completed"; progress_percent = 100 } ∷ d.jobs;
    },
  )
  unfolding execute_plan
  execute_plan_completed = simp (start_job-approved, execute-started)

-- ===== src/Mover/Examples.antt =====
-- Concrete VPC moves.
use capper.Prelude.{
  String, false, List, [], ◌∷◌, ◌≡◌, refl, arith, length, map, ◌==◌, if◌then◌else◌,
}
use capper.Prelude.Action.{ok}
use capper.Mover
use capper.Mover.{Db, Plan, Job, Faults}
use capper.Mover.Planner
use capper.Mover.Planner.{World, PlanRequest}
use capper.Mover.Executor
use capper.Mover.Executor.{execute_plan, rollback_job}
use capper.Mover.Stuck.{rollback_job_stuck}
use capper.Mover.Calls.{Call, run, plan, approve, start}
use capper.Mover.Started.{execute_plan_completed}
use capper.Mover.Vetted.{IsVetted}
use capper.Mover.Vetted.Run.{run-IsVetted}

abbrev sound : World
sound = record {
  fails = λ k s. false;
  new_plan = "plan-1";
  new_job = "job-1";
  new_lock = "lock-1";
  new_step = λ k. "step";
}

abbrev empty : Db
empty = record { plans = []; jobs = []; steps = []; locks = [] }

abbrev move : PlanRequest
move = record {
  org_id = "org";
  account_id = "acct";
  source_vpc_id = "vpc-1";
  target_region_id = "eu";
  target_zone_id = "eu-1";
  operation = "delete";
  copy_mode = "";
  strategy = "";
  instance_count = 0;
  created_by = "ann";
}

abbrev bad_move : PlanRequest
bad_move = record move { operation = "move"; target_zone_id = "" }

abbrev approved : Plan
approved = record (Planner.plan_of sound move []) { status = Mover.plan_approved }

empty-IsVetted : IsVetted empty
empty-IsVetted = record { verdicts = λ id p e. absurd ground arith; clean_jobs = tt }

execute_plan_completed_example :
    execute_plan sound (λ k. false) sound "plan-1" "ann" (record empty { plans = approved ∷ [] })
    ≡ (
      ok (Planner.job_of sound approved "ann"),
      record {
        plans = record approved { status = Mover.plan_executing } ∷ [];
        jobs =
            record (Planner.job_of sound approved "ann") {
              status = "completed";
              progress_percent = 100;
            }
            ∷ [];
        steps = [];
        locks =
            record { id = "lock-1"; vpc_id = "vpc-1"; lock_type = Mover.lock_move; job_id = "" }
            ∷ [];
      },
    )
execute_plan_completed_example =
    execute_plan_completed sound sound (λ k. false) "plan-1" "ann" approved
      (record empty { plans = approved ∷ [] }) (λ s. refl) (λ s. refl) refl refl refl refl refl

abbrev calls : List (World × Call)
calls = (sound, plan bad_move) ∷ (sound, approve "plan-1") ∷ (sound, start "plan-1" "ann") ∷ []

run-IsVetted_example : IsVetted (run calls empty)
run-IsVetted_example = run-IsVetted calls empty empty-IsVetted

-- The lock of the started plan outlives the rollback of its job.
abbrev second : World
second = record sound {
  new_job = "job-2";
  new_lock = "lock-2";
  new_step = λ k. if k == 1 then "step-1" else "step-2";
}

abbrev with_job : Db
with_job = record {
  plans = approved ∷ [];
  jobs = Planner.job_of sound approved "ann" ∷ [];
  steps = [];
  locks = record { id = "lock-1"; vpc_id = "vpc-1"; lock_type = Mover.lock_move; job_id = "" } ∷ [];
}

rollback_job_stuck_example :
    (rollback_job second (λ k. false) second "job-1" with_job).1.locks
    ≡ record { id = "lock-1"; vpc_id = "vpc-1"; lock_type = Mover.lock_move; job_id = "" } ∷ []
rollback_job_stuck_example = rollback_job_stuck second (λ k. false) second "job-1" with_job refl

-- Both steps were made, and the first has failed.
rollback_test :
    map {B = String × String}
      (λ s. (s.name, s.status))
      (rollback_job second (λ k. false) second "job-1" with_job).1.steps
    ≡ ("release-locks", "pending") ∷ ("cleanup-destination", "failed") ∷ []
unfolding rollback_job Executor.rollback Executor.execute Executor.run_steps Executor.run_step
    Executor.dispatch_step Executor.progress_pct Mover.find_job Mover.create_job Mover.create_step
    Mover.steps_of Mover.by_order Mover.place_step Mover.update_step_row Mover.update_job_status
    Mover.mark_failed Mover.mark_completed
rollback_test = refl

-- The plan that lacks a zone stays blocked, and no job is made.
blocked_test : ((run calls empty).jobs ≡ []) × (length (run calls empty).plans ≡ 1)
unfolding Planner.plan Planner.approve_plan Planner.start_job Mover.locks_of Mover.create_plan
    Mover.find_plan Planner.check_compatibility
blocked_test = (refl, refl)

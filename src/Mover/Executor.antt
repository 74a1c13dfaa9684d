-- ===== src/Mover/Executor.antt =====
-- The jobs of VPC moves: executor.go, steps.go and operations.go of internal/vpcmover. The rows of VPCs are not
-- modelled, nor those of resource mappings: a step that copies one changes nothing here, and one that retires it
-- only fails or does not. The message of a failed job is the name of its step. The
-- k-th step of a job has the faults 2 k, and those of 2 k + 1 for a second try.
use capper.Prelude.{
  ℕ, suc, ◌+◌, ◌*◌, ◌/◌, String, Bool, ◌||◌, List, [], ◌∷◌, length, any, str_eq, ltb, ◌==◌,
  if◌then◌else◌,
}
use capper.Prelude.Action.{Result, ok, err, ◌>>=◌, ◌>>◌, pure}
use capper.Mover.{
  Plan, Job, Step, Db, Faults, Error, Act, refuse_if, ignored, find_plan, create_job, find_job,
  update_job_status, mark_failed, mark_completed, create_step, update_step_row, steps_of,
  acquire_lock, release_lock, locks_of, lock_mobility_plan, lock_move, job_queued, job_running,
  start_step, update_step, retry_step, update_vpc, failed, incompatible, frozen, unimplemented,
  interrupted, step_failed,
}
use capper.Mover.Planner.{World, PlanRequest, check_compatibility, start_job}

-- The steps whose handler only fails.
abbrev pub not_wired : List String
not_wired =
    "copy-subnets" ∷ "copy-routes" ∷ "copy-firewall-rules" ∷ "copy-security-groups"
    ∷ "create-destination-instances-stopped" ∷ "start-destination-instances" ∷ "snapshot-volumes"
    ∷ "copy-snapshots" ∷ "create-destination-volumes" ∷ "attach-volumes" ∷ "copy-load-balancers"
    ∷ "copy-ingress-rules" ∷ "copy-dns-records-disabled" ∷ "copy-waf-rules" ∷ "run-health-checks"
    ∷ "freeze-source" ∷ "final-sync" ∷ "cutover-load-balancers" ∷ "cutover-dns" ∷ "verify-cutover"
    ∷ "mark-source-failed" ∷ "disable-ingress" ∷ "detach-dns-records" ∷ "delete-load-balancers"
    ∷ "stop-instances" ∷ "delete-instances" ∷ "delete-volumes" ∷ "delete-firewall-rules"
    ∷ "delete-routes" ∷ "delete-subnets" ∷ "delete-vpc" ∷ "validate-replica"
    ∷ "activate-replica-instances" ∷ "cleanup-destination" ∷ []

abbrev pub recheck : Job → Plan → PlanRequest
recheck job p = record {
  org_id = job.org_id;
  account_id = job.account_id;
  source_vpc_id = job.source_vpc_id;
  target_region_id = p.target_region_id;
  target_zone_id = p.target_zone_id;
  operation = job.operation;
  copy_mode = "";
  strategy = "";
  instance_count = 0;
  created_by = "";
}

abbrev pub checked : Job → Result Error Plan × Db → Result Error (Unit {0}) × Db
checked job (ok p, d) =
    (if length (check_compatibility (recheck job p)).1 == 0 then ok tt else err incompatible, d)
checked job (err e, d) = (ok tt, d)

-- `lock` is the id of a new lock.
unfoldable pub dispatch_step : Faults → String → Job → String → Act (Unit {0})
dispatch_step f lock job name d =
    if str_eq name "lock-source-vpc"
    then acquire_lock f
        (record {
          id = lock;
          vpc_id = job.source_vpc_id;
          lock_type = lock_mobility_plan;
          job_id = job.id;
        })
        d
    else if str_eq name "release-locks"
    then (ignored (release_lock f job.source_vpc_id lock_mobility_plan)
          >> (ignored (release_lock f job.source_vpc_id lock_move)
              >> ignored (release_lock f job.source_vpc_id "copy")))
        d
    else if str_eq name "validate-destination-capacity"
    then checked job (find_plan f job.plan_id d)
    else if str_eq name "check-delete-policy"
    then (locks_of f job.source_vpc_id
          >>= (λ locks. refuse_if (any (λ l. str_eq l.lock_type "freeze") locks) frozen))
        d
    else if str_eq name "mark-source-retired"
    then refuse_if (f update_vpc) (failed update_vpc) d
    else refuse_if (any (str_eq name) not_wired) unimplemented d

unfoldable pub progress_pct : ℕ → ℕ → ℕ
progress_pct current total = if total == 0 then 100 else current * 100 / total

abbrev pub max_retries : ℕ
max_retries = 3

module _ (w : World) (interrupts : ℕ → Bool) (job : Job) where
  abbrev pub give_up : ℕ → Step → Act (Unit {0})
  give_up k s =
      ignored (update_step_row (w.fails k) update_step s.id (λ t. record t { status = "failed" }))
      >> (ignored (mark_failed (w.fails k) job.id s.name) >> (λ d. (err step_failed, d)))

  -- After the second try, and after the first.
  abbrev pub second : ℕ → Step → Result Error (Unit {0}) × Db → Result Error (Unit {0}) × Db
  second k s (ok u, d) =
      ignored
        (update_step_row (w.fails k) update_step s.id (λ t. record t { status = "completed" })) d
  second k s (err e, d) = give_up k s d

  abbrev pub retried : ℕ → ℕ → Step → Act (Unit {0})
  retried i total s d =
      (ignored (
            update_step_row (w.fails (2 * i)) retry_step s.id
              (λ t. record t { status = "retrying"; retry_count = suc s.retry_count }))
          >> (ignored (
                update_job_status (w.fails (2 * i)) job.id job_running s.name
                  (progress_pct i total))
              >> (λ d'.
                  second (2 * i + 1) s
                    (dispatch_step (w.fails (2 * i + 1)) w.new_lock job s.name d'))))
        d

  abbrev pub first : ℕ → ℕ → Step → Result Error (Unit {0}) × Db → Result Error (Unit {0}) × Db
  first i total s (ok u, d) =
      update_step_row (w.fails (2 * i)) update_step s.id (λ t. record t { status = "completed" }) d
  first i total s (err e, d) =
      if ltb s.retry_count max_retries then retried i total s d else give_up (2 * i) s d

  unfoldable pub run_step : ℕ → ℕ → Step → Act (Unit {0})
  unfolding progress_pct
  run_step i total s d =
      if interrupts i
      then (ignored (
              update_step_row (w.fails (2 * i)) update_step s.id
                (λ t. record t { status = "pending" }))
            >> (ignored (
                  update_job_status (w.fails (2 * i)) job.id job_queued s.name
                    (progress_pct i total))
                >> (λ d'. (err interrupted, d'))))
          d
      else (ignored (
              update_step_row (w.fails (2 * i)) start_step s.id
                (λ t. record t { status = "running" }))
            >> (ignored (
                  update_job_status (w.fails (2 * i)) job.id job_running s.name
                    (progress_pct i total))
                >> (λ d'.
                    first i total s (dispatch_step (w.fails (2 * i)) w.new_lock job s.name d'))))
          d

  abbrev pub is_open : Step → Bool
  is_open s = str_eq s.status "pending" || str_eq s.status "retrying"

  unfoldable pub run_steps : ℕ → ℕ → List Step → Act (Unit {0})
  unfolding run_step
  run_steps i total [] = pure tt
  run_steps i total (s ∷ ss) =
      let rest = run_steps (suc i) total ss in
      λ d. if is_open s then (run_step i total s >> rest) d else rest d

  unfoldable pub execute : Act (Unit {0})
  unfolding run_steps
  execute = do
    steps ← steps_of (w.fails 0) job.id
    run_steps 0 (length steps) steps
    mark_completed (w.fails 0) job.id

-- The job runs in the background; its errors are dropped.
unfoldable pub execute_plan : World → (ℕ → Bool) → World → String → String → Act Job
unfolding start_job execute
execute_plan w interrupts w' id created_by = do
  job ← start_job w id created_by
  ignored (execute w' interrupts job)
  pure job

-- Runner.Rollback up to the run of the new job, all of it, and Runner.Cancel.
abbrev pub rollback_step : World → Job → ℕ → String → Step
rollback_step w job k name = record {
  id = w.new_step k;
  job_id = job.id;
  step_order = k;
  name = name;
  status = "pending";
  retry_count = 0;
}

abbrev pub rollback_of : World → Job → Job
rollback_of w orig = record orig {
  id = w.new_job;
  status = job_queued;
  current_step = "";
  progress_percent = 0;
  error_message = "";
}

unfoldable pub rollback : World → String → Act Job
rollback w id = do
  orig ← find_job (w.fails 0) id
  saved ← create_job (w.fails 0) (rollback_of w orig)
  create_step (w.fails 1) (rollback_step w saved 1 "cleanup-destination")
  create_step (w.fails 2) (rollback_step w saved 2 "release-locks")
  pure saved

unfoldable pub rollback_job : World → (ℕ → Bool) → World → String → Act Job
unfolding rollback execute
rollback_job w interrupts w' id = do
  saved ← rollback w id
  ignored (execute w' interrupts saved)
  pure saved

unfoldable pub cancel : World → String → Act (Unit {0})
cancel w id = ignored (mark_failed (w.fails 0) id "cancelled by user")

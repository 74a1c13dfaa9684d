-- ===== src/Mover/Stuck/Failing.antt =====
-- The first step of a rollback of internal/vpcmover, which always fails.
use capper.Prelude.{
  ℕ, suc, ◌+◌, ◌*◌, String, Bool, true, false, List, ◌∷◌, ◌≡◌, arith, if◌then◌else◌,
}
use capper.Prelude.Action.{err}
use capper.Prelude.Triple.{Triple, bind-Triple, then-Triple, state-Triple}
use capper.Mover
use capper.Mover.{
  Db, Job, Step, Lock, Statement, Faults, Error, Act, ignored, state_of, update_step_row,
}
use capper.Mover.Planner.{World}
use capper.Mover.Executor
use capper.Mover.Executor.{
  rollback_step, rollback_of, rollback_job, give_up, first, second, retried, progress_pct,
}

module _ (ls : List Lock) where
  abbrev pub Holds : Db → Type 0
  Holds d = d.locks ≡ ls

  row-Holds :
      (f : Faults) (s : Statement) (id : String) (change : Step → Step)
      → Triple Holds Holds (ignored (update_step_row f s id change)) (λ _. Holds)
  unfolding update_step_row
  row-Holds f s id change = state-Triple Holds Holds (λ d h. h) (λ d h. ground (arith, h))

  job-Holds :
      (f : Faults) (id status step : String) (n : ℕ)
      → Triple Holds Holds (ignored (Mover.update_job_status f id status step n)) (λ _. Holds)
  unfolding Mover.update_job_status
  job-Holds f id status step n = state-Triple Holds Holds (λ d h. h) (λ d h. ground (arith, h))

  fail-Holds :
      (f : Faults) (id message : String)
      → Triple Holds Holds (ignored (Mover.mark_failed f id message)) (λ _. Holds)
  unfolding Mover.mark_failed
  fail-Holds f id message = state-Triple Holds Holds (λ d h. h) (λ d h. ground (arith, h))

  -- A call that cannot end well, and changes no lock.
  abbrev pub Fails : Act (Unit {0}) → Type 0
  Fails m = Triple Holds Holds m (λ _ d. ⊥)

  error-Fails : (e : Error) → Fails (λ d. (err e, d))
  error-Fails e = record { holds = λ d h. h }

  module _ (w : World) (interrupts : ℕ → Bool) (job : Job) (v : World) where
    abbrev pub cleanup : Step
    cleanup = rollback_step v job 1 "cleanup-destination"

    give_up-Fails : (k : ℕ) → Fails (give_up w interrupts job k cleanup)
    give_up-Fails k =
        then-Triple Holds Holds
          (row-Holds (w.fails k) Mover.update_step cleanup.id (λ t. record t { status = "failed" }))
          (then-Triple Holds Holds (fail-Holds (w.fails k) job.id cleanup.name)
            (error-Fails Mover.step_failed))

    second-Fails :
        (k : ℕ)
        → Fails (λ d.
          second w interrupts job k cleanup
            (Executor.dispatch_step (w.fails k) w.new_lock job cleanup.name d))
    unfolding Executor.dispatch_step
    second-Fails k = record { holds = λ d h. (give_up-Fails k).holds d h }

    retried-Fails : (i total : ℕ) → Fails (retried w interrupts job i total cleanup)
    retried-Fails i total =
        then-Triple Holds Holds
          (row-Holds (w.fails (2 * i)) Mover.retry_step cleanup.id
            (λ t. record t { status = "retrying"; retry_count = suc cleanup.retry_count }))
          (then-Triple Holds Holds
            (job-Holds (w.fails (2 * i)) job.id Mover.job_running cleanup.name
              (progress_pct i total))
            (second-Fails (2 * i + 1)))

    first-Fails :
        (i total : ℕ)
        → Fails (λ d.
          first w interrupts job i total cleanup
            (Executor.dispatch_step (w.fails (2 * i)) w.new_lock job cleanup.name d))
    unfolding Executor.dispatch_step
    first-Fails i total = record { holds = λ d h. (retried-Fails i total).holds d h }

    if-Fails :
        {m k : Act (Unit {0})} (b : Bool) → Fails m → Fails k → Fails (λ d. if b then m d else k d)
    if-Fails true hm hk = hm
    if-Fails false hm hk = hk

    run_step-Fails : (i total : ℕ) → Fails (Executor.run_step w interrupts job i total cleanup)
    unfolding Executor.run_step
    run_step-Fails i total =
        if-Fails (interrupts i)
          (then-Triple Holds Holds
            (row-Holds (w.fails (2 * i)) Mover.update_step cleanup.id
              (λ t. record t { status = "pending" }))
            (then-Triple Holds Holds
              (job-Holds (w.fails (2 * i)) job.id Mover.job_queued cleanup.name
                (progress_pct i total))
              (error-Fails Mover.interrupted)))
          (then-Triple Holds Holds
            (row-Holds (w.fails (2 * i)) Mover.start_step cleanup.id
              (λ t. record t { status = "running" }))
            (then-Triple Holds Holds
              (job-Holds (w.fails (2 * i)) job.id Mover.job_running cleanup.name
                (progress_pct i total))
              (first-Fails i total)))

    pub run_steps-Fails :
        (total : ℕ) (ss : List Step)
        → Fails (Executor.run_steps w interrupts job 0 total (cleanup ∷ ss))
    unfolding Executor.run_steps
    run_steps-Fails total ss =
        bind-Triple Holds {P = Holds} (λ u d. ⊥) (run_step-Fails 0 total)
          (λ u. record { holds = λ d h. absurd h })

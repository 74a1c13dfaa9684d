-- ===== src/Mover/Frames/Jobs.antt =====
-- The steps of a job of internal/vpcmover, one by one and together, leave the plans alone.
use capper.Prelude.{ℕ, suc, ◌+◌, ◌*◌, String, Bool, List, [], ◌∷◌, ◌≡◌, ◌∙◌, length, ltb}
use capper.Prelude.Action.{Result, ok, err}
use capper.Mover
use capper.Mover.{
  Db, Job, Step, Lock, Plan, Statement, Faults, Error, Act, refuse_if, ignored, state_of,
  update_step_row, failed,
}
use capper.Mover.Planner.{World}
use capper.Mover.Executor.{
  dispatch_step, run_step, run_steps, execute, give_up, second, first, retried, progress_pct,
  is_open, max_retries,
}
use capper.Mover.Frames.{
  Frames, shape, bind-Frames, then-Frames, ignored-Frames, if-Frames, pure-Frames, fail-Frames,
  steps_of-Frames, update_step_row-Frames, update_job_status-Frames, mark_failed-Frames,
  mark_completed-Frames, dispatch_step-Frames,
}

module _ (w : World) (interrupts : ℕ → Bool) (job : Job) where
  row-Frames :
      (f : Faults) (s : Statement) (id : String) (change : Step → Step)
      → Frames (ignored (update_step_row f s id change))
  row-Frames f s id change = ignored-Frames (update_step_row-Frames f s id change)

  job-Frames :
      (f : Faults) (status step : String) (n : ℕ)
      → Frames (ignored (Mover.update_job_status f job.id status step n))
  job-Frames f status step n = ignored-Frames (update_job_status-Frames f job.id status step n)

  give_up-Frames : (k : ℕ) (s : Step) → Frames (give_up w interrupts job k s)
  give_up-Frames k s =
      then-Frames
        (row-Frames (w.fails k) Mover.update_step s.id (λ t. record t { status = "failed" }))
        (then-Frames (ignored-Frames (mark_failed-Frames (w.fails k) job.id s.name))
          (fail-Frames Mover.step_failed))

  second-shape :
      (k : ℕ) (s : Step) (r : Result Error (Unit {0}) × Db)
      → shape (second w interrupts job k s r).1 ≡ shape r.1
  second-shape k s (ok u, d) =
      (row-Frames (w.fails k) Mover.update_step s.id
          (λ t. record t { status = "completed" })).frames
        d
  second-shape k s (err e, d) = (give_up-Frames k s).frames d

  again-Frames :
      (k : ℕ) (s : Step)
      → Frames
          (λ d. second w interrupts job k s (dispatch_step (w.fails k) w.new_lock job s.name d))
  again-Frames k s = record {
    frames = λ d.
        second-shape k s (dispatch_step (w.fails k) w.new_lock job s.name d)
        ∙ (dispatch_step-Frames (w.fails k) w.new_lock job s.name).frames d;
  }

  retried-Frames : (i total : ℕ) (s : Step) → Frames (retried w interrupts job i total s)
  retried-Frames i total s =
      then-Frames
        (row-Frames (w.fails (2 * i)) Mover.retry_step s.id
          (λ t. record t { status = "retrying"; retry_count = suc s.retry_count }))
        (then-Frames (job-Frames (w.fails (2 * i)) Mover.job_running s.name (progress_pct i total))
          (again-Frames (2 * i + 1) s))

  first-shape :
      (i total : ℕ) (s : Step) (r : Result Error (Unit {0}) × Db)
      → shape (first w interrupts job i total s r).1 ≡ shape r.1
  first-shape i total s (ok u, d) =
      (update_step_row-Frames (w.fails (2 * i)) Mover.update_step s.id
          (λ t. record t { status = "completed" })).frames
        d
  first-shape i total s (err e, d) =
      (if-Frames (ltb s.retry_count max_retries) (retried-Frames i total s)
          (give_up-Frames (2 * i) s)).frames
        d

  tried-Frames :
      (i total : ℕ) (s : Step)
      → Frames (λ d.
        first w interrupts job i total s (dispatch_step (w.fails (2 * i)) w.new_lock job s.name d))
  tried-Frames i total s = record {
    frames = λ d.
        first-shape i total s (dispatch_step (w.fails (2 * i)) w.new_lock job s.name d)
        ∙ (dispatch_step-Frames (w.fails (2 * i)) w.new_lock job s.name).frames d;
  }

  run_step-Frames : (i total : ℕ) (s : Step) → Frames (run_step w interrupts job i total s)
  unfolding run_step
  run_step-Frames i total s =
      if-Frames (interrupts i)
        (then-Frames
          (row-Frames (w.fails (2 * i)) Mover.update_step s.id
            (λ t. record t { status = "pending" }))
          (then-Frames (job-Frames (w.fails (2 * i)) Mover.job_queued s.name (progress_pct i total))
            (fail-Frames Mover.interrupted)))
        (then-Frames
          (row-Frames (w.fails (2 * i)) Mover.start_step s.id
            (λ t. record t { status = "running" }))
          (then-Frames
            (job-Frames (w.fails (2 * i)) Mover.job_running s.name (progress_pct i total))
            (tried-Frames i total s)))

  run_steps-Frames : (i total : ℕ) (ss : List Step) → Frames (run_steps w interrupts job i total ss)
  unfolding run_steps
  run_steps-Frames i total [] = pure-Frames tt
  run_steps-Frames i total (s ∷ ss) =
      if-Frames (is_open w interrupts job s)
        (then-Frames (run_step-Frames i total s) (run_steps-Frames (suc i) total ss))
        (run_steps-Frames (suc i) total ss)

  pub execute-Frames : Frames (execute w interrupts job)
  unfolding execute
  execute-Frames = bind-Frames (steps_of-Frames (w.fails 0) job.id) (λ steps.
      then-Frames (run_steps-Frames 0 (length steps) steps)
        (mark_completed-Frames (w.fails 0) job.id))

-- ===== src/Mover/Stuck.antt =====
-- Runner.Rollback of internal/vpcmover/operations.go with the run of its job.
pub mod Failing
use capper.Prelude.{
  ℕ, suc, ◌+◌, ◌*◌, String, Bool, true, false, List, [], ◌∷◌, ◌≡◌, refl, sym, subst, length, ap,
  arith, str_eq, eq_iff, keep, if◌then◌else◌, any, Bool-cases, inl, inr,
}
use capper.Prelude.Action.{M, Result, ok, err, ◌>>=◌, ◌>>◌, pure}
use capper.Prelude.Triple.{Post, Triple, bind-Triple, then-Triple, state-Triple, state-after}
use capper.Mover
use capper.Mover.{
  Db, Job, Step, Lock, Statement, Faults, Error, Act, ignored, state_of, update_step_row,
}
use capper.Mover.Planner.{World}
use capper.Mover.Executor
use capper.Mover.Executor.{
  rollback_step, rollback_of, rollback_job, give_up, first, second, retried, progress_pct,
}
use capper.Mover.Stuck.Failing.{Holds, run_steps-Fails}

module _ (ls : List Lock) where
  -- The steps of the job with this id.
  abbrev Has : String → List Step → Db → Type 0
  Has id ss d = (d.locks ≡ ls) × (keep (λ s. str_eq s.job_id id) d.steps ≡ ss)

  find_job-Has :
      (f : Faults) (i id : String) (ss : List Step)
      → Triple (Holds ls) (Has id ss) (Mover.find_job f i) (λ j. Has id ss)
  unfolding Mover.find_job
  find_job-Has f i id ss =
      state-Triple (Holds ls) (Has id ss) (λ d h. h.0) (λ d h. ground (arith, h.0, h.1))

  create_job-then :
      {B : Type 0} {R : B → Db → Type 0} (f : Faults) (j : Job) (k : Job → Act B) (id : String)
      (ss : List Step)
      → Triple (Holds ls) (Has id ss) (k j) R
      → Triple (Holds ls) (Has id ss) (Mover.create_job f j >>= k) R
  unfolding Mover.create_job
  create_job-then f j k id ss next = record {
    holds = λ d h. elim (Bool-cases (f Mover.insert_job)) [
      | inl e ↦ rw e h.0
      | inr e ↦ rw e (elim (Bool-cases (any (λ k. str_eq k.id j.id) d.jobs)) [
        | inl t ↦ rw t h.0
        | inr t ↦ rw t (next.holds (record d { jobs = j ∷ d.jobs }) h)
      ])
    ];
  }

  create_step-Has :
      (f : Faults) (s : Step) (ss : List Step)
      → Triple (Holds ls) (Has s.job_id ss) (Mover.create_step f s) (λ k. Has s.job_id (s ∷ ss))
  unfolding Mover.create_step
  create_step-Has f s ss = record {
    holds = λ d h. elim (Bool-cases (f Mover.insert_step)) [
      | inl e ↦ rw e h.0
      | inr e ↦ rw e (elim (Bool-cases (any (λ t. str_eq t.id s.id) d.steps)) [
        | inl t ↦ rw t h.0
        | inr t ↦ rw t (h.0, rw ((eq_iff s.job_id s.job_id).1 refl) (ap (λ ts. s ∷ ts) h.1))
      ])
    ];
  }

  steps_of-Has :
      (f : Faults) (id : String) (ss : List Step)
      → Triple
          (Holds ls)
          (Has id ss)
          (Mover.steps_of f id)
          (λ r d. (Holds ls) d × (r ≡ Mover.by_order ss))
  unfolding Mover.steps_of
  steps_of-Has f id ss = record {
    holds = λ d h. elim (Bool-cases (f Mover.list_steps)) [
      | inl e ↦ rw e h.0
      | inr e ↦ rw e (h.0, ap Mover.by_order h.1)
    ];
  }

  abbrev saved_steps : World → Job → List Step
  saved_steps w job =
      rollback_step w job 2 "release-locks" ∷ rollback_step w job 1 "cleanup-destination" ∷ []

  execute-Fails :
      (w : World) (interrupts : ℕ → Bool) (v : World) (job : Job)
      → Triple
          (Holds ls)
          (Has job.id (saved_steps v job))
          (Executor.execute w interrupts job)
          (λ u d. ⊥)
  unfolding Executor.execute Mover.by_order
  execute-Fails w interrupts v job =
      bind-Triple (Holds ls) (λ r d. (Holds ls) d × (r ≡ Mover.by_order (saved_steps v job)))
        (steps_of-Has (w.fails 0) job.id (saved_steps v job))
        (λ steps. record {
          holds = λ d q.
              (subst (λ ss. Triple (Holds ls) (Holds ls) (run_all ss) (λ u d. ⊥)) (sym q.1)
                  (then-Triple (Holds ls) (λ d. ⊥)
                    (run_steps-Fails ls w interrupts job v 2
                      (rollback_step v job 2 "release-locks" ∷ []))
                    (record { holds = λ d h. absurd h }))).holds
                d q.0;
        })
    where
      run_all : List Step → Act (Unit {0})
      run_all ss =
          Executor.run_steps w interrupts job 0 (length ss) ss
          >> Mover.mark_completed (w.fails 0) job.id

  rollback-Has :
      (w : World) (id : String)
      → Triple
          (Holds ls)
          (Has w.new_job [])
          (Executor.rollback w id)
          (λ saved. Has saved.id (saved_steps w saved))
  unfolding Executor.rollback
  rollback-Has w id =
      bind-Triple (Holds ls) (λ j. Has w.new_job []) (find_job-Has (w.fails 0) id w.new_job [])
        (λ orig. create_job-then (w.fails 0) _ _ w.new_job [] (
          then-Triple (Holds ls) _
            (create_step-Has (w.fails 1)
              (rollback_step w (rollback_of w orig) 1 "cleanup-destination") [])
            (then-Triple (Holds ls) _
              (create_step-Has (w.fails 2) (rollback_step w (rollback_of w orig) 2 "release-locks")
                (rollback_step w (rollback_of w orig) 1 "cleanup-destination" ∷ []))
              (record { holds = λ d h. h }))))

  Post-ignored :
      (r : Result Error (Unit {0}) × Db)
      → Post (Holds ls) (λ u d. ⊥) r
      → Post (Holds ls) (λ u. (Holds ls)) (state_of r)
  Post-ignored (ok u, d) h = absurd h
  Post-ignored (err e, d) h = h

  background-Holds :
      (w : World) (interrupts : ℕ → Bool) (v : World) (job : Job)
      → Triple
          (Holds ls)
          (Has job.id (saved_steps v job))
          (ignored (Executor.execute w interrupts job))
          (λ u. (Holds ls))
  background-Holds w interrupts v job = record {
    holds = λ d h.
        Post-ignored (Executor.execute w interrupts job d)
          ((execute-Fails w interrupts v job).holds d h);
  }

  pure-Holds :
      {A : Type 0} (a : A)
      → Triple (Holds ls) (Holds ls) (pure {S = Db} {E = Error} a) (λ x. (Holds ls))
  pure-Holds a = record { holds = λ d h. h }

  rollback_job-Holds :
      (w : World) (interrupts : ℕ → Bool) (w' : World) (id : String)
      → Triple (Holds ls) (Has w.new_job []) (rollback_job w interrupts w' id) (λ saved. (Holds ls))
  unfolding rollback_job
  rollback_job-Holds w interrupts w' id =
      bind-Triple (Holds ls) (λ saved. Has saved.id (saved_steps w saved)) (rollback-Has w id)
        (λ saved.
          then-Triple (Holds ls) (Holds ls) (background-Holds w' interrupts w saved)
            (pure-Holds saved))

-- A rollback whose new job has an id to which no step belongs leaves every lock as it was, with its run to the end and
-- with any statement failing: its first step always fails, so that its second, which would release the locks, is not
-- reached.
pub rollback_job_stuck :
    (w : World) (interrupts : ℕ → Bool) (w' : World) (id : String) (d : Db)
    → keep (λ s. str_eq s.job_id w.new_job) d.steps ≡ []
    → (rollback_job w interrupts w' id d).1.locks ≡ d.locks
rollback_job_stuck w interrupts w' id d new =
    go (rollback_job w interrupts w' id d)
      ((rollback_job-Holds d.locks w interrupts w' id).holds d (refl, new))
  where
    go :
        (r : Result Error Job × Db)
        → Post (Holds d.locks) (λ j. Holds d.locks) r
        → r.1.locks ≡ d.locks
    go (ok j, e) h = h
    go (err x, e) h = h

-- ===== src/Mover/Frames.antt =====
-- What the jobs of internal/vpcmover leave alone, with their steps and their locks: the plans, and which plan
-- each job is of.
pub mod Jobs
use capper.Prelude.{
  ℕ, suc, ◌+◌, ◌*◌, String, Bool, true, false, List, [], ◌∷◌, ◌≡◌, refl, ◌∙◌, str_eq, arith,
  if◌then◌else◌, any, map, length, ltb,
}
use capper.Prelude.Action.{Result, ok, err, ◌>>=◌, ◌>>◌, bound, pure}
use capper.Mover
use capper.Mover.{
  Db, Job, Step, Lock, Plan, Statement, Faults, Error, Act, refuse_if, ignored, state_of,
  update_step_row, failed,
}
use capper.Mover.Planner.{World}
use capper.Mover.Executor.{
  dispatch_step, run_step, run_steps, execute, give_up, second, first, retried, checked,
  progress_pct, is_open, max_retries, not_wired,
}

abbrev pub plan_ids : List Job → List String
plan_ids = map (λ j. j.plan_id)

abbrev pub shape : Db → List Plan × List String
shape d = (d.plans, plan_ids d.jobs)

plan_ids-change :
    (id : String) (g : Job → Job)
    → ((j : Job) → (g j).plan_id ≡ j.plan_id)
    → (js : List Job) → plan_ids (map (λ j. if str_eq j.id id then g j else j) js) ≡ plan_ids js
plan_ids-change id g same [] = refl
plan_ids-change id g same (j ∷ js) = ground (arith, same j, plan_ids-change id g same js)

pub record Frames {A : Type 0} (m : Act A) : Type 0 where
  pub frames : (d : Db) → shape (m d).1 ≡ shape d

pub bind-Frames :
    {A B : Type 0} {m : Act A} {k : A → Act B}
    → Frames m
    → ((a : A) → Frames (k a))
    → Frames (m >>= k)
bind-Frames {A} {B} {m} {k} hm hk = record { frames = λ d. go (m d) ∙ hm.frames d }
  where
    go : (r : Result Error A × Db) → shape (bound r k).1 ≡ shape r.1
    go (ok a, d) = (hk a).frames d
    go (err e, d) = refl

pub ignored-Frames : {m : Act (Unit {0})} → Frames m → Frames (ignored m)
ignored-Frames {m} h = record { frames = λ d. go (m d) ∙ h.frames d }
  where
    go : (r : Result Error (Unit {0}) × Db) → shape (state_of r).1 ≡ shape r.1
    go (r, d) = refl

pub refuse-Frames : (b : Bool) (e : Error) → Frames (refuse_if b e)
refuse-Frames true e = record { frames = λ d. refl }
refuse-Frames false e = record { frames = λ d. refl }

pub pure-Frames : {A : Type 0} (a : A) → Frames (pure {S = Db} {E = Error} a)
pure-Frames a = record { frames = λ d. refl }

pub fail-Frames : {A : Type 0} (e : Error) → Frames {A = A} (λ d. (err e, d))
fail-Frames e = record { frames = λ d. refl }

module _ (f : Faults) where
  pub find_job-Frames : (id : String) → Frames (Mover.find_job f id)
  unfolding Mover.find_job
  find_job-Frames id = record { frames = λ d. ground arith }

  pub find_plan-Frames : (id : String) → Frames (Mover.find_plan f id)
  unfolding Mover.find_plan
  find_plan-Frames id = record { frames = λ d. ground arith }

  pub locks_of-Frames : (vpc : String) → Frames (Mover.locks_of f vpc)
  unfolding Mover.locks_of
  locks_of-Frames vpc = record { frames = λ d. ground arith }

  pub create_step-Frames : (s : Step) → Frames (Mover.create_step f s)
  unfolding Mover.create_step
  create_step-Frames s = record { frames = λ d. ground arith }

  pub acquire_lock-Frames : (l : Lock) → Frames (Mover.acquire_lock f l)
  unfolding Mover.acquire_lock
  acquire_lock-Frames l = record { frames = λ d. ground arith }

  pub release_lock-Frames : (vpc type : String) → Frames (Mover.release_lock f vpc type)
  unfolding Mover.release_lock
  release_lock-Frames vpc type = record { frames = λ d. ground arith }

  pub update_job_status-Frames :
      (id status step : String) (n : ℕ) → Frames (Mover.update_job_status f id status step n)
  unfolding Mover.update_job_status
  update_job_status-Frames id status step n = record {
    frames = λ d. ground (
      arith,
      plan_ids-change id
          (λ j. record j { status = status; current_step = step; progress_percent = n }) (λ j. refl)
          d.jobs,
    );
  }

  pub mark_failed-Frames : (id message : String) → Frames (Mover.mark_failed f id message)
  unfolding Mover.mark_failed
  mark_failed-Frames id message = record {
    frames = λ d. ground (
      arith,
      plan_ids-change id (λ j. record j { status = "failed"; error_message = message }) (λ j. refl)
          d.jobs,
    );
  }

  pub mark_completed-Frames : (id : String) → Frames (Mover.mark_completed f id)
  unfolding Mover.mark_completed
  mark_completed-Frames id = record {
    frames = λ d. ground (
      arith,
      plan_ids-change id (λ j. record j { status = "completed"; progress_percent = 100 })
          (λ j. refl) d.jobs,
    );
  }

  pub update_step_row-Frames :
      (s : Statement) (id : String) (change : Step → Step) → Frames (update_step_row f s id change)
  unfolding update_step_row
  update_step_row-Frames s id change = record { frames = λ d. ground arith }

  pub steps_of-Frames : (job : String) → Frames (Mover.steps_of f job)
  unfolding Mover.steps_of
  steps_of-Frames job = record { frames = λ d. ground arith }

  pub release_all-Frames :
      (vpc : String)
      → Frames (
          ignored (Mover.release_lock f vpc Mover.lock_mobility_plan)
          >> (ignored (Mover.release_lock f vpc Mover.lock_move)
              >> ignored (Mover.release_lock f vpc "copy")))
  release_all-Frames vpc =
      bind-Frames (ignored-Frames (release_lock-Frames vpc Mover.lock_mobility_plan)) (λ u.
        bind-Frames (ignored-Frames (release_lock-Frames vpc Mover.lock_move))
          (λ v. ignored-Frames (release_lock-Frames vpc "copy")))

  pub checked-shape : (job : Job) (r : Result Error Plan × Db) → shape (checked job r).1 ≡ shape r.1
  checked-shape job (ok p, d) = refl
  checked-shape job (err e, d) = refl

  delete_policy-shape :
      (r : Result Error (List Lock) × Db)
      → shape
          (bound r
            (λ locks. refuse_if (any (λ l. str_eq l.lock_type "freeze") locks) Mover.frozen)).1
        ≡ shape r.1
  delete_policy-shape (ok ls, d) = (refuse-Frames _ _).frames d
  delete_policy-shape (err e, d) = refl

  pub dispatch_step-Frames :
      (lock : String) (job : Job) (name : String) → Frames (dispatch_step f lock job name)
  unfolding dispatch_step
  dispatch_step-Frames lock job name = record {
    frames = λ d. ground (
      arith,
      (acquire_lock-Frames (record {
        id = lock;
        vpc_id = job.source_vpc_id;
        lock_type = Mover.lock_mobility_plan;
        job_id = job.id;
      })).frames
          d,
      (release_all-Frames job.source_vpc_id).frames d,
      checked-shape job (Mover.find_plan f job.plan_id d),
      (find_plan-Frames job.plan_id).frames d,
      delete_policy-shape (Mover.locks_of f job.source_vpc_id d),
      (locks_of-Frames job.source_vpc_id).frames d,
      (refuse-Frames (f Mover.update_vpc) (failed Mover.update_vpc)).frames d,
      (refuse-Frames (any (str_eq name) not_wired) Mover.unimplemented).frames d,
    );
  }

pub then-Frames :
    {B : Type 0} {m : Act (Unit {0})} {k : Act B} → Frames m → Frames k → Frames (m >> k)
then-Frames {m} {k} hm hk = bind-Frames hm (λ u. hk)

pub if-Frames :
    {m k : Act (Unit {0})} (b : Bool) → Frames m → Frames k → Frames (λ d. if b then m d else k d)
if-Frames true hm hk = hm
if-Frames false hm hk = hk

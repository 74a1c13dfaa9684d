-- ===== src/Mover.antt =====
-- The tables of VPC moves: models.go and store.go of internal/vpcmover, with plans, jobs, steps and locks. Each
-- statement is told whether it fails. The JSON columns of a plan are kept as the lists that they hold;
-- times, error texts of steps and columns that no call reads are left out.
pub mod Planner
pub mod Executor
pub mod Calls
pub mod Frames
pub mod Started
pub mod Vetted
pub mod Stuck
mod Examples
use capper.Prelude.{
  ℕ, ◌+◌, String, Bool, true, false, not, ◌&&◌, ◌||◌, List, [], ◌∷◌, Option, none, some, map, any,
  keep, find, length, str_eq, leb, ◌==◌, if◌then◌else◌,
}
use capper.Prelude.Action.{M, Result, ok, err, ◌>>=◌, ◌>>◌, pure, statement, ask}

pub record Plan : Type 0 where
  pub id : String
  pub org_id : String
  pub account_id : String
  pub source_vpc_id : String
  pub operation : String
  pub target_region_id : String
  pub target_zone_id : String
  pub status : String
  pub steps : List String
  pub warnings : List String
  pub errors : List String
  pub created_by : String

pub record Job : Type 0 where
  pub id : String
  pub plan_id : String
  pub org_id : String
  pub account_id : String
  pub source_vpc_id : String
  pub operation : String
  pub status : String
  pub current_step : String
  pub progress_percent : ℕ
  pub error_message : String
  pub created_by : String

pub record Step : Type 0 where
  pub id : String
  pub job_id : String
  pub step_order : ℕ
  pub name : String
  pub status : String
  pub retry_count : ℕ

pub record Lock : Type 0 where
  pub id : String
  pub vpc_id : String
  pub lock_type : String
  pub job_id : String

pub record Db : Type 0 where
  pub plans : List Plan
  pub jobs : List Job
  pub steps : List Step
  pub locks : List Lock

pub data Statement : Type 0 where
  insert_plan get_plan update_plan insert_job get_job update_job fail_job complete_job : Statement
  insert_step list_steps start_step update_step retry_step insert_lock delete_lock list_locks :
      Statement
  update_vpc : Statement

abbrev pub Faults : Type 0
Faults = Statement → Bool

pub data Error : Type 0 where
  failed : Statement → Error
  not_found not_validated not_approved not_cancellable locked no_lock : Error
  incompatible frozen unimplemented interrupted step_failed : Error

abbrev pub Act : Type 0 → Type 0
Act A = M Db Error A

abbrev pub plan_validated : String
plan_validated = "validated"

abbrev pub plan_blocked : String
plan_blocked = "blocked"

abbrev pub plan_approved : String
plan_approved = "approved"

abbrev pub plan_executing : String
plan_executing = "executing"

abbrev pub job_queued : String
job_queued = "queued"

abbrev pub job_running : String
job_running = "running"

abbrev pub lock_mobility_plan : String
lock_mobility_plan = "mobility-plan"

abbrev pub lock_move : String
lock_move = "move"

abbrev pub refuse_if : Bool → Error → Act (Unit {0})
refuse_if true e d = (err e, d)
refuse_if false e d = (ok tt, d)

-- The error of a call is dropped.
abbrev pub state_of : Result Error (Unit {0}) × Db → Result Error (Unit {0}) × Db
state_of (r, d) = (ok tt, d)

abbrev pub ignored : Act (Unit {0}) → Act (Unit {0})
ignored m d = state_of (m d)

abbrev pub found : {A : Type 0} → Option A → Result Error A
found none = err not_found
found (some a) = ok a

abbrev pub with_status : String → String → Plan → Plan
with_status id status p = if str_eq p.id id then record p { status = status } else p

abbrev pub holds : String → String → Lock → Bool
holds vpc type l = str_eq l.vpc_id vpc && str_eq l.lock_type type

module _ (f : Faults) where
  unfoldable pub create_plan : Plan → Act Plan
  create_plan p = do
    taken ← ask (f insert_plan) (failed insert_plan) (λ d. ok (any (λ q. str_eq q.id p.id) d.plans))
    refuse_if taken (failed insert_plan)
    statement false (failed insert_plan) (λ d. record d { plans = p ∷ d.plans })
    pure p

  -- Every error of the query is "not found".
  unfoldable pub find_plan : String → Act Plan
  find_plan id = ask (f get_plan) not_found (λ d. found (find (λ p. str_eq p.id id) d.plans))

  unfoldable pub update_plan_status : String → String → Act (Unit {0})
  update_plan_status id status =
      statement (f update_plan) (failed update_plan)
        (λ d. record d { plans = map (with_status id status) d.plans })

  unfoldable pub create_job : Job → Act Job
  create_job j = do
    taken ← ask (f insert_job) (failed insert_job) (λ d. ok (any (λ k. str_eq k.id j.id) d.jobs))
    refuse_if taken (failed insert_job)
    statement false (failed insert_job) (λ d. record d { jobs = j ∷ d.jobs })
    pure j

  unfoldable pub find_job : String → Act Job
  find_job id = ask (f get_job) not_found (λ d. found (find (λ j. str_eq j.id id) d.jobs))

  unfoldable pub update_job_status : String → String → String → ℕ → Act (Unit {0})
  update_job_status id status step progress = statement (f update_job) (failed update_job) (λ d.
      record d {
        jobs =
            map
              (λ j.
                if str_eq j.id id
                then record j { status = status; current_step = step; progress_percent = progress }
                else j)
              d.jobs;
      })

  unfoldable pub mark_failed : String → String → Act (Unit {0})
  mark_failed id message = statement (f fail_job) (failed fail_job) (λ d. record d {
    jobs =
        map
          (λ j.
            if str_eq j.id id then record j { status = "failed"; error_message = message } else j)
          d.jobs;
  })

  unfoldable pub mark_completed : String → Act (Unit {0})
  mark_completed id = statement (f complete_job) (failed complete_job) (λ d. record d {
    jobs =
        map
          (λ j.
            if str_eq j.id id then record j { status = "completed"; progress_percent = 100 } else j)
          d.jobs;
  })

  unfoldable pub create_step : Step → Act (Unit {0})
  create_step s = do
    taken ← ask (f insert_step) (failed insert_step) (λ d. ok (any (λ t. str_eq t.id s.id) d.steps))
    refuse_if taken (failed insert_step)
    statement false (failed insert_step) (λ d. record d { steps = s ∷ d.steps })

  unfoldable pub update_step_row : Statement → String → (Step → Step) → Act (Unit {0})
  update_step_row s id change =
      statement (f s) (failed s)
        (λ d. record d { steps = map (λ t. if str_eq t.id id then change t else t) d.steps })

  -- UNIQUE(vpc_id, lock_type); every error is "locked".
  unfoldable pub acquire_lock : Lock → Act (Unit {0})
  acquire_lock l = do
    taken ←
        ask (f insert_lock) locked
          (λ d. ok (any (λ k. str_eq k.id l.id || holds l.vpc_id l.lock_type k) d.locks))
    refuse_if taken locked
    statement false locked (λ d. record d { locks = l ∷ d.locks })

  unfoldable pub release_lock : String → String → Act (Unit {0})
  release_lock vpc type = do
    held ← ask (f delete_lock) (failed delete_lock) (λ d. ok (any (holds vpc type) d.locks))
    refuse_if (not held) no_lock
    statement false no_lock (λ d. record d { locks = keep (λ l. not (holds vpc type l)) d.locks })

  unfoldable pub locks_of : String → Act (List Lock)
  locks_of vpc =
      ask (f list_locks) (failed list_locks) (λ d. ok (keep (λ l. str_eq l.vpc_id vpc) d.locks))

-- ORDER BY step_order.
unfoldable pub place_step : Step → List Step → List Step
place_step s [] = s ∷ []
place_step s (t ∷ ts) =
    let rest = place_step s ts in if leb s.step_order t.step_order then s ∷ t ∷ ts else t ∷ rest

unfoldable pub by_order : List Step → List Step
unfolding place_step
by_order [] = []
by_order (s ∷ ss) = place_step s (by_order ss)

unfoldable pub steps_of : Faults → String → Act (List Step)
steps_of f job =
    ask (f list_steps) (failed list_steps)
      (λ d. ok (by_order (keep (λ s. str_eq s.job_id job) d.steps)))

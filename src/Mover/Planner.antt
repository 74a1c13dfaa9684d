-- ===== src/Mover/Planner.antt =====
-- The plans of VPC moves: internal/vpcmover/planner.go.
use capper.Prelude.{
  ℕ, String, Bool, true, false, not, ◌&&◌, ◌||◌, List, [], ◌∷◌, ◌++◌, length, str_eq, ltb, ◌==◌,
  if◌then◌else◌,
}
use capper.Prelude.Action.{◌>>=◌, ◌>>◌}
use capper.Mover.{
  Plan, Job, Lock, Faults, Act, plan_validated, plan_blocked, plan_approved, plan_executing,
  job_queued, job_running, lock_move, refuse_if, ignored, create_plan, find_plan,
  update_plan_status, create_job, find_job, update_job_status, acquire_lock, release_lock, locks_of,
  not_validated, not_approved, not_cancellable,
}

pub record PlanRequest : Type 0 where
  pub org_id : String
  pub account_id : String
  pub source_vpc_id : String
  pub target_region_id : String
  pub target_zone_id : String
  pub operation : String
  pub copy_mode : String
  pub strategy : String
  pub instance_count : ℕ
  pub created_by : String

-- What a call takes from outside: whether statements fail at each step, and new ids.
pub record World : Type 0 where
  pub fails : ℕ → Faults
  pub new_plan : String
  pub new_job : String
  pub new_lock : String
  pub new_step : ℕ → String

abbrev pub code_if : Bool → String → List String
code_if true code = code ∷ []
code_if false code = []

abbrev pub is_blank : String → Bool
is_blank s = str_eq s ""

-- The codes of the warnings and of the errors.
unfoldable pub check_compatibility : PlanRequest → List String × List String
check_compatibility req =
    let moves = str_eq req.operation "move" || str_eq req.operation "relocate" in
    (
      code_if (str_eq req.operation "move" && not (is_blank req.target_region_id)) "VPCM-070",
      code_if (is_blank req.source_vpc_id) "VPCM-001"
          ++ code_if (moves && is_blank req.target_region_id) "VPCM-002"
          ++ code_if (moves && is_blank req.target_zone_id) "VPCM-003"
          ++ code_if
              (str_eq req.operation "delete"
                && (ltb 0 req.instance_count && not (str_eq req.copy_mode "full")))
              "VPCM-170",
    )

abbrev pub copy_base : List String
copy_base =
    "lock-source-vpc" ∷ "inventory-source-vpc" ∷ "validate-destination-capacity"
    ∷ "create-destination-vpc" ∷ "copy-subnets" ∷ "copy-routes" ∷ "copy-firewall-rules"
    ∷ "copy-security-groups" ∷ []

abbrev pub copy_storage : List String
copy_storage =
    "snapshot-volumes" ∷ "copy-snapshots" ∷ "create-destination-volumes"
    ∷ "create-destination-instances-stopped" ∷ "attach-volumes" ∷ []

-- The full copy without its last step, which a move takes off.
abbrev pub copy_full : List String
copy_full =
    copy_base
    ++ copy_storage
    ++ "copy-load-balancers" ∷ "copy-ingress-rules" ∷ "copy-dns-records-disabled" ∷ "copy-waf-rules"
      ∷ "run-health-checks" ∷ []

unfoldable pub copy_steps : String → List String
copy_steps mode =
    if str_eq mode "topology-only"
    then copy_base ++ "release-locks" ∷ []
    else if str_eq mode "topology-and-compute"
    then copy_base ++ "create-destination-instances-stopped" ∷ "release-locks" ∷ []
    else if str_eq mode "topology-compute-and-storage"
    then copy_base ++ copy_storage ++ "release-locks" ∷ []
    else copy_full ++ "release-locks" ∷ []

unfoldable pub move_steps : String → List String
move_steps strategy =
    if str_eq strategy "emergency-restore"
    then copy_full
      ++ "start-destination-instances" ∷ "cutover-load-balancers" ∷ "cutover-dns"
        ∷ "mark-source-failed" ∷ "release-locks" ∷ []
    else copy_full
      ++ "run-health-checks" ∷ "freeze-source" ∷ "final-sync" ∷ "start-destination-instances"
        ∷ "cutover-load-balancers" ∷ "cutover-dns" ∷ "verify-cutover" ∷ "mark-source-retired"
        ∷ "release-locks" ∷ []

unfoldable pub delete_steps : List String
delete_steps =
    "lock-source-vpc" ∷ "check-delete-policy" ∷ "disable-ingress" ∷ "detach-dns-records"
    ∷ "delete-load-balancers" ∷ "stop-instances" ∷ "snapshot-volumes" ∷ "delete-instances"
    ∷ "delete-volumes" ∷ "delete-firewall-rules" ∷ "delete-routes" ∷ "delete-subnets" ∷ "delete-vpc"
    ∷ "release-locks" ∷ []

unfoldable pub failover_steps : List String
failover_steps =
    "validate-replica" ∷ "lock-source-vpc" ∷ "cutover-load-balancers" ∷ "cutover-dns"
    ∷ "activate-replica-instances" ∷ "verify-cutover" ∷ "release-locks" ∷ []

unfoldable pub generate_steps : PlanRequest → List String
unfolding copy_steps move_steps delete_steps failover_steps
generate_steps req =
    if str_eq req.operation "copy"
    then copy_steps req.copy_mode
    else if str_eq req.operation "move"
    then move_steps req.strategy
    else if str_eq req.operation "delete"
    then delete_steps
    else if str_eq req.operation "failover"
    then failover_steps
    else "unknown-operation" ∷ []

abbrev pub plan_of : World → PlanRequest → List Lock → Plan
plan_of w req locks =
    let errors = code_if (not (length locks == 0)) "VPCM-010" ++ (check_compatibility req).1 in
    record {
      id = w.new_plan;
      org_id = req.org_id;
      account_id = req.account_id;
      source_vpc_id = req.source_vpc_id;
      operation = req.operation;
      target_region_id = req.target_region_id;
      target_zone_id = req.target_zone_id;
      status = if length errors == 0 then plan_validated else plan_blocked;
      steps = generate_steps req;
      warnings = (check_compatibility req).0;
      errors = errors;
      created_by = req.created_by;
    }

unfoldable pub plan : World → PlanRequest → Act Plan
plan w req = do
  locks ← locks_of (w.fails 0) req.source_vpc_id
  create_plan (w.fails 0) (plan_of w req locks)

unfoldable pub approve_plan : World → String → Act (Unit {0})
approve_plan w id = do
  p ← find_plan (w.fails 0) id
  refuse_if (not (str_eq p.status plan_validated)) not_validated
  update_plan_status (w.fails 0) id plan_approved

abbrev pub job_of : World → Plan → String → Job
job_of w p created_by = record {
  id = w.new_job;
  plan_id = p.id;
  org_id = p.org_id;
  account_id = p.account_id;
  source_vpc_id = p.source_vpc_id;
  operation = p.operation;
  status = job_queued;
  current_step = "";
  progress_percent = 0;
  error_message = "";
  created_by = created_by;
}

unfoldable pub start_job : World → String → String → Act Job
start_job w id created_by = do
  p ← find_plan (w.fails 0) id
  refuse_if (not (str_eq p.status plan_approved)) not_approved
  acquire_lock (w.fails 0)
      (record { id = w.new_lock; vpc_id = p.source_vpc_id; lock_type = lock_move; job_id = "" })
  ignored (update_plan_status (w.fails 0) id plan_executing)
  create_job (w.fails 0) (job_of w p created_by)

abbrev pub is_cancellable : String → Bool
is_cancellable s =
    str_eq s job_queued
    || (str_eq s job_running || (str_eq s "waiting_for_approval" || str_eq s "waiting_for_cutover"))

unfoldable pub cancel_job : World → String → Act (Unit {0})
cancel_job w id = do
  j ← find_job (w.fails 0) id
  refuse_if (not (is_cancellable j.status)) not_cancellable
  ignored (update_job_status (w.fails 0) id "cancelled" j.current_step j.progress_percent)
  ignored (release_lock (w.fails 0) j.source_vpc_id lock_move)

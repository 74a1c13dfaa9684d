-- ===== src/Mover/Calls.antt =====
-- Any calls of internal/vpcmover in turn.
use capper.Prelude.{ℕ, String, Bool, List, [], ◌∷◌}
use capper.Mover.{Db, Job}
use capper.Mover.Planner
use capper.Mover.Planner.{World, PlanRequest}
use capper.Mover.Executor

-- A job is executed as it was created, with what interrupts it.
pub data Call : Type 0 where
  plan : PlanRequest → Call
  approve cancel_job rollback cancel : String → Call
  start : String → String → Call
  execute : Job → (ℕ → Bool) → Call

abbrev pub apply : World → Call → Db → Db
apply w (plan req) d = (Planner.plan w req d).1
apply w (approve id) d = (Planner.approve_plan w id d).1
apply w (cancel_job id) d = (Planner.cancel_job w id d).1
apply w (rollback id) d = (Executor.rollback w id d).1
apply w (cancel id) d = (Executor.cancel w id d).1
apply w (start id created_by) d = (Planner.start_job w id created_by d).1
apply w (execute job interrupts) d = (Executor.execute w interrupts job d).1

abbrev pub run : List (World × Call) → Db → Db
run [] d = d
run ((w, c) ∷ cs) d = run cs (apply w c d)

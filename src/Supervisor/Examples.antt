-- ===== src/Supervisor/Examples.antt =====
-- The theorems on internal/supervisor/supervisor.go on a host where everything dies and any start would succeed.
use capper.Prelude.{String, true, false, [], ◌∷◌, some, none, ◌≡◌, refl, map, All}
use capper.Supervisor.{
  Instance, Host, World, status_running, restart_always, restart_never, update_instance, saved,
  stopped, mark_stopped, restarted, run_instance, maybe_restart, visit, visit_all, tick, run, count,
}
use capper.Supervisor.Refused.{ids, dead, run_unrestarted, tick_marks}

abbrev instance_of : String → String → Instance
instance_of id policy = record {
  id = id;
  image = "web";
  pid = 7;
  status = status_running;
  stopped_at = none;
  restart_policy = policy;
  restart_count = 0;
}

abbrev host : Host
host = record {
  listed = true;
  updatable = true;
  now = 0;
  alive = λ p. false;
  over_quota = false;
  over_limit = false;
  launch = λ rows image policy network. some (instance_of "new" policy);
}

abbrev start : World
start = record {
  rows = instance_of "1" restart_always ∷ instance_of "2" restart_never ∷ [];
  stats = [];
}

run_unrestarted_example :
    (ids (run (host ∷ host ∷ []) start).rows ≡ "1" ∷ "2" ∷ [])
    × ((run (host ∷ host ∷ []) start).stats ≡ [])
run_unrestarted_example = run_unrestarted (host ∷ host ∷ []) start

tick_marks_example : All (λ r. dead host r ≡ false) (tick host start).rows
tick_marks_example = tick_marks host start refl refl

-- The first was to be restarted, and has failed; the second is stopped.
statuses : map {B = String} (λ r. r.status) (tick host start).rows ≡ "failed" ∷ "stopped" ∷ []
unfolding tick visit_all visit mark_stopped maybe_restart restarted run_instance saved stopped
    update_instance count
statuses = refl

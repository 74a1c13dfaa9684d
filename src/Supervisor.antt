-- ===== src/Supervisor.antt =====
-- The supervisor of internal/supervisor/supervisor.go: a tick over the table of instances, with the
-- session's restart counts, and the checks with which Manager.Run of
-- internal/manager/instance_manager.go begins. Starting a container behind these checks is a parameter, with
-- what it puts in the table; the log and the JSON copy of an instance are left out.
pub mod Refused
mod Examples
use capper.Prelude.{
  ℕ, suc, ◌+◌, String, Bool, true, false, not, ◌&&◌, List, [], ◌∷◌, Option, none, some, map, str_eq,
  leb, if◌then◌else◌,
}

abbrev pub status_running : String
status_running = "running"

abbrev pub status_stopped : String
status_stopped = "stopped"

abbrev pub status_failed : String
status_failed = "failed"

abbrev pub restart_never : String
restart_never = "never"

abbrev pub restart_always : String
restart_always = "always"

abbrev pub restart_on_failure : String
restart_on_failure = "on-failure"

abbrev pub max_session_restarts : ℕ
max_session_restarts = 10

-- The fields of an instance that the supervisor reads or writes.
pub record Instance : Type 0 where
  pub id : String
  pub image : String
  pub pid : ℕ
  pub status : String
  pub stopped_at : Option ℕ
  pub restart_policy : String
  pub restart_count : ℕ

-- UpdateInstance: the row with the id, but for its image.
updated : Instance → Instance → Instance
updated i r = if str_eq r.id i.id then record i { image = r.image } else r

pub update_instance : Instance → List Instance → List Instance
unfolding updated
update_instance i rows = map (updated i) rows

abbrev pub Stats : Type 0
Stats = List (String × ℕ)

-- `stats[id]`, 0 where it is missing, and `stats[id]++`.
unfoldable pub count : String → Stats → ℕ
count k [] = 0
count k ((j, n) ∷ m) = if str_eq j k then n else count k m

pub bump : String → Stats → Stats
bump k [] = (k, 1) ∷ []
bump k ((j, n) ∷ m) = let rest = bump k m in if str_eq j k then (j, suc n) ∷ m else (j, n) ∷ rest

-- What `Manager.Run` is asked for, as far as its checks read it.
pub record RunOptions : Type 0 where
  pub restart_policy : String
  pub network : Option String

-- What a tick finds: whether the table can be read and written, the clock, which processes live, whether the
-- quota or the host's limit is reached, and what is started behind these checks (`none` is an error).
pub record Host : Type 0 where
  pub listed : Bool
  pub updatable : Bool
  pub now : ℕ
  pub alive : ℕ → Bool
  pub over_quota : Bool
  pub over_limit : Bool
  pub launch : List Instance → String → String → String → Option Instance

pub record World : Type 0 where
  pub rows : List Instance
  pub stats : Stats

pub saved : Host → Instance → List Instance → List Instance
saved h i rows = if h.updatable then update_instance i rows else rows

pub stopped : Host → Instance → Instance
stopped h i = record i { status = status_stopped; stopped_at = some h.now }

pub mark_stopped : Host → Instance → World → World
unfolding saved stopped
mark_stopped h i w = record w { rows = saved h (stopped h i) w.rows }

-- `Manager.Run`: an instance has to be in a network.
launched : Host → List Instance → String → String → Option String → Option Instance
launched h rows image policy none = none
launched h rows image policy (some network) = h.launch rows image policy network

pub run_instance : Host → List Instance → String → RunOptions → Option Instance
unfolding launched
run_instance h rows image opts =
    if h.over_quota
    then none
    else if h.over_limit
    then none
    else launched h rows image opts.restart_policy opts.network

-- `Manager.Run` has put the new instance in the table.
pub restarted : Host → Instance → World → Option Instance → World
unfolding saved
restarted h i w none = record w {
  rows = saved h (record i { status = status_failed; restart_policy = restart_never }) w.rows;
}
restarted h i w (some new) =
    let stats = bump i.id w.stats in
    record {
      rows = saved h (record new { restart_count = count i.id stats }) (new ∷ w.rows);
      stats = stats;
    }

pub maybe_restart : Host → Instance → World → World
unfolding restarted saved run_instance
maybe_restart h i w =
    if not (str_eq i.restart_policy restart_always)
      && not (str_eq i.restart_policy restart_on_failure)
    then w
    else if leb max_session_restarts (count i.id w.stats)
    then record w { rows = saved h (record i { restart_policy = restart_never }) w.rows }
    else restarted h i w (
        run_instance h w.rows i.image
          (record { restart_policy = i.restart_policy; network = none }))

-- The body of the loop of `tick`.
pub visit : Host → Instance → World → World
unfolding mark_stopped maybe_restart stopped
visit h i w =
    if not (str_eq i.status status_running)
    then w
    else if h.alive i.pid
    then w
    else maybe_restart h (stopped h i) (mark_stopped h i w)

pub visit_all : Host → List Instance → World → World
visit_all h [] w = w
visit_all h (i ∷ is) w = visit_all h is (visit h i w)

pub tick : Host → World → World
tick h w = if h.listed then visit_all h w.rows w else w

pub run : List Host → World → World
run [] w = w
run (h ∷ hs) w = run hs (tick h w)

-- ===== src/Model/Docker.antt =====
-- src/terminal_status_panel/model/docker.py
use terminal_status_panel.Base.{
  ℕ, Bool, true, Option, none, some, List, [], ◌∷◌, String, ◌&&◌, mem, str_eq, if◌then◌else◌,
}

pub record ServiceTask : Type 0 where
  pub node : Option String
  pub state : String

abbrev starting_states : List String
starting_states =
    "new" ∷ "allocated" ∷ "pending" ∷ "assigned" ∷ "accepted" ∷ "preparing" ∷ "ready" ∷ "starting"
    ∷ []

unfoldable pub task_running : ServiceTask → Bool
task_running t = str_eq t.state "running"

unfoldable pub task_starting : ServiceTask → Bool
task_starting t = mem t.state starting_states

pub record JobRun : Type 0 where
  pub state : String
  pub age_seconds : Option ℕ
  pub node : Option String

unfoldable pub run_ok : JobRun → Bool
run_ok r = str_eq r.state "complete"

unfoldable pub run_failed : JobRun → Bool
run_failed r = mem r.state ("failed" ∷ "rejected" ∷ "orphaned" ∷ [])

pub record ServiceStatus : Type 0 where
  pub name : String
  pub running_replicas : ℕ
  pub desired_replicas : Option ℕ
  pub critical : Bool
  pub stack : Option String
  pub description : Option String
  pub tasks : List ServiceTask
  pub unassigned : ℕ
  pub job : Bool
  pub schedule : Option String
  pub last_run : Option JobRun
  pub image : Option String
  pub group : Option String
  pub pinned : Bool
  pub memory_bytes : Option ℕ
  pub memory_limit : Option ℕ
  pub memory_reservation : Option ℕ
  pub local_tasks : ℕ

-- Twelve hours.
abbrev pub trouble_window : ℕ
trouble_window = 43200000000

pub record TroubleEntry : Type 0 where
  pub name : String
  pub node : Option String
  pub fails : Option ℕ
  pub fails_capped : Bool
  pub uptime_seconds : Option ℕ
  pub cause : Option String
  pub severity : String
  pub source : String

-- The place in `TROUBLE_SEVERITIES`, or its length.
unfoldable pub trouble_rank : TroubleEntry → ℕ
trouble_rank e =
    if str_eq e.severity "dead"
    then 0
    else if str_eq e.severity "restarting"
    then 1
    else if str_eq e.severity "recovered"
    then 2
    else 3

pub record DockerDiskUsage : Type 0 where
  pub node : Option String
  pub root_dir : Option String
  pub used : ℕ
  pub reclaimable : ℕ
  pub images : ℕ
  pub build_cache : ℕ
  pub volumes : ℕ
  pub containers : ℕ
  pub volumes_unused : ℕ
  pub volumes_total : ℕ
  pub error : Option String

pub record SwarmNode : Type 0 where
  pub name : String
  pub reachable : Bool
  pub role : Option String
  pub leader : Bool
  pub state : Option String
  pub availability : Option String
  pub engine_version : Option String
  pub reachable_by_managers : Option Bool

abbrev accepts_tasks : Option String → Bool
accepts_tasks none = true
accepts_tasks (some availability) = str_eq availability "active"

unfoldable pub operational : SwarmNode → Bool
operational n = n.reachable && accepts_tasks n.availability

pub record SwarmInfo : Type 0 where
  pub reachable : Bool
  pub enabled : Bool
  pub node_role : Option String
  pub node_count : Option ℕ
  pub services : List ServiceStatus
  pub containers : List ServiceStatus
  pub nodes : List SwarmNode
  pub container_services : List (String × String)
  pub local_engine_version : Option String
  pub disk : Option DockerDiskUsage
  pub trouble : List TroubleEntry

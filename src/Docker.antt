-- ===== src/Docker.antt =====
-- src/terminal_status_panel/collectors/docker.py: what Docker's API answers, as the fields that
-- the collector reads of it. The Docker SDK is a parameter: its answers are arguments, and `none`
-- stands for a call that raised and for a field that is absent or null. A timestamp is what
-- `_parse_timestamp` makes of it, in microseconds since the year 1, where Docker's zero timestamp
-- lies. The wall clock is read once, as `now`.
pub mod Nodes
pub mod Tasks
pub mod Trouble
pub mod Containers
pub mod Memory
pub mod Disk
pub mod Services
pub mod Collect
use terminal_status_panel.Base.{
  ℕ, Bool, true, false, Option, none, some, List, String, ltb, ◌-◌, not, leb,
}
use terminal_status_panel.Base.Dict.{lookup}
use terminal_status_panel.Model.Docker.{trouble_window}

-- A task of a service: `Err` and `ContainerStatus.ExitCode` are fields of its status.
pub record RawTask : Type 0 where
  pub node_id : Option String
  pub state : Option String
  pub timestamp : Option ℕ
  pub err : Option String
  pub exit_code : Option ℕ

-- The answer of a container's `stats`: of `memory_stats`, and of its `stats`.
pub record MemoryStats : Type 0 where
  pub usage : Option ℕ
  pub inactive_file : Option ℕ
  pub total_inactive_file : Option ℕ

-- A container: `client_status` is the SDK's attribute `status`, `labels` what `container_labels`
-- reads, `status`, `health`, `exit_code`, `oom_killed`, `error` and `started` the fields of
-- `State`, `image` the one of `Config`, and the last two those of `HostConfig`.
pub record Container : Type 0 where
  pub id : String
  pub name : String
  pub labels : List (String × String)
  pub client_status : Option String
  pub status : Option String
  pub health : Option String
  pub exit_code : Option ℕ
  pub oom_killed : Bool
  pub error : Option String
  pub started : Option ℕ
  pub restarts : Option ℕ
  pub image : Option String
  pub stats : Option MemoryStats
  pub memory : Option ℕ
  pub memory_reservation : Option ℕ

-- `id_to_name.get(node_id, node_id)`
abbrev pub node_name : List (String × String) → String → String
node_name names node_id = elim (lookup node_id names) [ none ↦ node_id | some name ↦ name ]

-- `_now() - at <= _TROUBLE_WINDOW_SECONDS`; a time that is still to come is within the window.
abbrev pub within_window : ℕ → ℕ → Bool
within_window now at = leb (now - at) trouble_window

-- `best is None or at > best`
abbrev pub is_newer : Option ℕ → ℕ → Bool
is_newer none at = true
is_newer (some best) at = ltb best at

-- ===== src/Docker/Memory.antt =====
-- docker.py: the memory that a service's containers hold on this node.
pub mod Totals
use terminal_status_panel.Base.{
  ℕ, ◌+◌, ◌-◌, Bool, true, false, not, ◌||◌, Option, none, some, List, [], ◌∷◌, String, ◌==◌,
  str_eq, or_text, if◌then◌else◌,
}
use terminal_status_panel.Base.Dict.{update}
use terminal_status_panel.Model.Docker.{ServiceStatus}
use terminal_status_panel.Docker.{Container, MemoryStats}

-- `_raw_state`
abbrev pub raw_state : Container → String
raw_state c = or_text c.status (or_text c.client_status "unknown")

-- `_Memory`
pub record MemoryTotal : Type 0 where
  pub usage : ℕ
  pub limit : ℕ
  pub reservation : ℕ
  pub tasks : ℕ
  pub is_partial : Bool

abbrev pub no_memory : MemoryTotal
no_memory = record { usage = 0; limit = 0; reservation = 0; tasks = 0; is_partial = false }

-- `n or 0`
abbrev pub or_zero : Option ℕ → ℕ
or_zero none = 0
or_zero (some n) = n

-- The page cache: cgroup v2's figure where there is one, else that of v1.
abbrev pub inactive : MemoryStats → ℕ
inactive s = elim s.inactive_file [ none ↦ or_zero s.total_inactive_file | some n ↦ n ]

-- `_container_memory`: usage, limit and reservation.
pub container_memory : Container → Option (ℕ × ℕ × ℕ)
container_memory c = elim c.stats [
  | none ↦ none
  | some s ↦ elim s.usage [
    | none ↦ none
    | some usage ↦ some (usage - inactive s, or_zero c.memory, or_zero c.memory_reservation)
  ]
]

abbrev pub add_reading : Option (ℕ × ℕ × ℕ) → MemoryTotal → MemoryTotal
add_reading none m = record m { is_partial = true }
add_reading (some (usage, limit, reservation)) m = record m {
  usage = m.usage + usage;
  limit = m.limit + limit;
  reservation = m.reservation + reservation;
  tasks = m.tasks + 1;
}

abbrev pub or_no_memory : Option MemoryTotal → MemoryTotal
or_no_memory none = no_memory
or_no_memory (some m) = m

-- `_record_memory`
pub record_memory : List (String × MemoryTotal) → String → Container → List (String × MemoryTotal)
record_memory memory name c =
    if str_eq (raw_state c) "running"
    then update name (λ old. add_reading (container_memory c) (or_no_memory old)) memory
    else memory

-- `n or None`
abbrev pub or_none : ℕ → Option ℕ
or_none n = if n == 0 then none else some n

-- `_apply_memory`
unfoldable pub apply_memory : ServiceStatus → Option MemoryTotal → ServiceStatus
apply_memory service none = service
apply_memory service (some m) = if m.tasks == 0 then service else record service {
  memory_bytes = some m.usage;
  memory_limit = or_none m.limit;
  memory_reservation = or_none m.reservation;
  local_tasks = m.tasks;
}

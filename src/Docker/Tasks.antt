-- ===== src/Docker/Tasks.antt =====
-- docker.py: `_last_run`, `_service_tasks` and the facts it keeps.
pub mod Facts
pub mod LastRun
mod Tests
use terminal_status_panel.Base.{
  ℕ, ◌+◌, ◌-◌, Bool, true, false, ◌&&◌, Option, none, some, List, [], ◌∷◌, ◌++◌, String, str_eq,
  or_text, nonempty, strip, if◌then◌else◌, text_leb, is_some,
}
use terminal_status_panel.Base.Sorting.{sort}
use terminal_status_panel.Model.Docker.{ServiceTask, JobRun}
use terminal_status_panel.Docker.{RawTask, node_name, is_newer}

-- `status.get("State", "unknown")`
abbrev pub state_of : RawTask → String
state_of t = elim t.state [ none ↦ "unknown" | some s ↦ s ]

abbrev pub time_of : Option (RawTask × ℕ) → Option ℕ
time_of none = none
time_of (some best) = some best.1

-- One round of the loop of `_last_run`, for a task with this timestamp.
pub newer_task : RawTask → Option ℕ → Option (RawTask × ℕ) → Option (RawTask × ℕ)
newer_task t none best = best
newer_task t (some at) best = if is_newer (time_of best) at then some (t, at) else best

-- The newest task with a readable timestamp, with that timestamp: the loop of `_last_run`.
pub newest_task : List RawTask → Option (RawTask × ℕ) → Option (RawTask × ℕ)
newest_task [] best = best
newest_task (t ∷ tasks) best = newest_task tasks (newer_task t t.timestamp best)

-- `id_to_name.get(node_id, node_id) if node_id else None`
abbrev pub node_of : List (String × String) → RawTask → Option String
node_of names t = elim (nonempty t.node_id) [ none ↦ none | some i ↦ some (node_name names i) ]

-- `_last_run`
pub last_run : Option (List RawTask) → List (String × String) → ℕ → Option JobRun
last_run none names now = none
last_run (some tasks) names now = elim (newest_task tasks none) [
  | none ↦ none
  | some newest ↦ some (record {
    state = state_of newest.0;
    age_seconds = some (now - newest.1);
    node = node_of names newest.0;
  })
]

-- `_TaskFacts`
pub record TaskFacts : Type 0 where
  pub tasks : List ServiceTask
  pub unassigned : ℕ
  pub newest_running_at : Option ℕ
  pub placement_error : Option String

abbrev pub no_facts : TaskFacts
no_facts = record { tasks = []; unassigned = 0; newest_running_at = none; placement_error = none }

-- The newer of the two timestamps, the first on a tie.
abbrev pub newer_of : Option ℕ → Option ℕ → Option ℕ
newer_of best none = best
newer_of best (some at) = if is_newer best at then some at else best

-- `best if best is not None else other`
abbrev pub first_of : Option String → Option String → Option String
first_of none other = other
first_of (some s) other = some s

-- `(status.get("Err") or "").strip() or None`
abbrev pub error_text : RawTask → Option String
error_text t = nonempty (some (strip (or_text t.err "")))

-- One round of the loop of `_service_tasks`.
pub add_task : List (String × String) → RawTask → TaskFacts → TaskFacts
add_task names t facts = elim (nonempty t.node_id) [
  | none ↦ record facts {
    unassigned = facts.unassigned + 1;
    placement_error = first_of facts.placement_error (error_text t);
  }
  | some i ↦ record facts {
    tasks = facts.tasks ++ (record { node = some (node_name names i); state = state_of t } ∷ []);
    newest_running_at =
        if str_eq (state_of t) "running"
        then newer_of facts.newest_running_at t.timestamp
        else facts.newest_running_at;
  }
]

pub add_tasks : List (String × String) → List RawTask → TaskFacts → TaskFacts
add_tasks names [] facts = facts
add_tasks names (t ∷ tasks) facts = add_tasks names tasks (add_task names t facts)

abbrev pub node_leb : ServiceTask → ServiceTask → Bool
node_leb a b = text_leb (or_text a.node "") (or_text b.node "")

abbrev sorted_tasks : TaskFacts → TaskFacts
sorted_tasks facts = record facts { tasks = sort node_leb facts.tasks }

-- `_service_tasks`, of the answer to the listing filtered by the desired state `running`.
pub service_tasks : Option (List RawTask) → List (String × String) → TaskFacts
service_tasks none names = no_facts
service_tasks (some tasks) names = sorted_tasks (add_tasks names tasks no_facts)

-- ===== src/Docker/Trouble.antt =====
-- docker.py: `_retention_limit`, `_task_cause`, `_failed_history` and `_service_trouble`.
pub mod Failures
pub mod Shown
mod Tests
use terminal_status_panel.Base.{
  ℕ, ◌+◌, ◌-◌, Bool, true, false, not, ◌&&◌, ◌||◌, Option, none, some, List, [], ◌∷◌, String, ◌<>◌,
  ltb, leb, ◌==◌, mem, strip, shown, or_text, nonempty, is_some, if◌then◌else◌,
}
use terminal_status_panel.Model.Docker.{ServiceTask, TroubleEntry}
use terminal_status_panel.Docker.{RawTask, within_window, is_newer}
use terminal_status_panel.Docker.Tasks.{TaskFacts, node_of, error_text}

abbrev failed_states : List String
failed_states = "failed" ∷ "rejected" ∷ "orphaned" ∷ []

-- `_retention_limit`, of the limit read.
abbrev pub retention_limit : Option ℕ → Option ℕ
retention_limit none = none
retention_limit (some limit) = if ltb 0 limit then some limit else none

abbrev pub exit_text : ℕ → Option String → String
exit_text code none = "exit " <> shown code
exit_text code (some error) = "exit " <> shown code <> " · \"" <> error <> "\""

-- `_task_cause`
pub task_cause : RawTask → Option String
task_cause t =
    let code : ℕ = elim t.exit_code [ none ↦ 0 | some c ↦ c ] in
    if code == 0 then error_text t else some (exit_text code (error_text t))

abbrev pub is_failed : RawTask → Bool
is_failed t = elim t.state [ none ↦ false | some s ↦ mem s failed_states ]

-- The timestamp of a failure within the window.
pub failed_at : ℕ → RawTask → Option ℕ
failed_at now t =
    if is_failed t
    then (elim t.timestamp [
      | none ↦ none
      | some at ↦ if within_window now at then some at else none
    ])
    else none

-- The variables of the loop of `_failed_history`.
pub record History : Type 0 where
  pub fails : ℕ
  pub newest_at : Option ℕ
  pub cause : Option String
  pub node : Option String

abbrev pub no_history : History
no_history = record { fails = 0; newest_at = none; cause = none; node = none }

-- One failure: it is counted, and its cause and node are kept if it is the newest so far.
pub add_failure : List (String × String) → RawTask → ℕ → History → History
add_failure names t at h =
    if is_newer h.newest_at at
    then record {
      fails = h.fails + 1;
      newest_at = some at;
      cause = task_cause t;
      node = node_of names t;
    }
    else record h { fails = h.fails + 1 }

abbrev pub add_attempt : List (String × String) → RawTask → Option ℕ → History → History
add_attempt names t none h = h
add_attempt names t (some at) h = add_failure names t at h

pub add_attempts : List (String × String) → ℕ → List RawTask → History → History
add_attempts names now [] h = h
add_attempts names now (t ∷ tasks) h =
    add_attempts names now tasks (add_attempt names t (failed_at now t) h)

-- `_failed_history`, of the answer to the unfiltered listing.
pub failed_history : Option (List RawTask) → List (String × String) → ℕ → History
failed_history none names now = no_history
failed_history (some tasks) names now = add_attempts names now tasks no_history

pub is_short : ℕ → Option ℕ → Bool
is_short running none = false
is_short running (some desired) = ltb running desired

pub is_recent : ℕ → TaskFacts → Bool
is_recent now facts = elim facts.newest_running_at [ none ↦ false | some at ↦ within_window now at ]

abbrev first_node : List ServiceTask → Option String
first_node [] = none
first_node (t ∷ tasks) = t.node

-- `fails >= retention`
abbrev pub is_capped : Option ℕ → ℕ → Bool
is_capped none fails = false
is_capped (some retention) fails = leb retention fails

-- The service without a failure in the window: Swarm's sentence, if there is one.
pub placement_trouble : String → TaskFacts → Option TroubleEntry
placement_trouble name facts = elim (nonempty facts.placement_error) [
  | none ↦ none
  | some cause ↦ some (record {
    name = name;
    node = none;
    fails = none;
    fails_capped = false;
    uptime_seconds = none;
    cause = some cause;
    severity = "dead";
    source = "swarm";
  })
]

pub failure_trouble : String → TaskFacts → ℕ → Option ℕ → ℕ → History → TroubleEntry
failure_trouble name facts running retention now h =
    let up : Bool = ltb 0 running in
    record {
      name = name;
      node = elim (nonempty h.node) [ none ↦ first_node facts.tasks | some n ↦ some n ];
      fails = some h.fails;
      fails_capped = is_capped retention h.fails;
      uptime_seconds =
          if up
          then (elim facts.newest_running_at [ none ↦ none | some at ↦ some (now - at) ])
          else none;
      cause = h.cause;
      severity = if up then "recovered" else "dead";
      source = "swarm";
    }

-- `_service_trouble`. The history is listed only for a service that the first test lets through.
pub service_trouble :
    Option (List RawTask)
    → String
    → List (String × String)
    → TaskFacts
    → ℕ
    → Option ℕ
    → Option ℕ
    → ℕ
    → Option TroubleEntry
service_trouble history name names facts running desired retention now =
    let h = failed_history history names now in
    if is_short running desired || is_recent now facts
    then (if h.fails == 0
        then placement_trouble name facts
        else some (failure_trouble name facts running retention now h))
    else none

-- ===== src/HostState.antt =====
-- src/terminal_status_panel/collectors/hoststate.py: the trouble rows of the host's events. Times are
-- microseconds. `{seconds:.0f}`, the interpreter's rounding, is the parameter `round`.
pub mod Rows
mod Tests
use terminal_status_panel.Base.{
  ℕ, ◌*◌, ◌-◌, ◌/◌, Bool, true, false, not, ◌&&◌, ◌||◌, Option, none, some, List, [], ◌∷◌, ◌++◌,
  String, ◌<>◌, ltb, mem, nonempty, is_some, shown, if◌then◌else◌,
}
use terminal_status_panel.Base.Dict.{lookup}
use terminal_status_panel.Model.{second}
use terminal_status_panel.Model.Docker.{TroubleEntry}
use terminal_status_panel.Collector.Journal.{EventCount}

-- `_EVENT_LABELS`
abbrev event_labels : List (String × (String × String))
event_labels =
    ("oom_kill", ("host: OOM kill", "dead"))
    ∷ ("unit_failed", ("host: unit failed", "dead"))
    ∷ ("apache_slots_full", ("host: Apache slots full", "restarting"))
    ∷ ("vrrp_state", ("host: VRRP state change", "restarting"))
    ∷ ("apache_reload", ("host: Apache reload", "restarting"))
    ∷ []

-- The label and the severity of a kind.
pub label_of : String → Option (String × String)
label_of kind = lookup {A = String × String} kind event_labels

-- Of `HostState`, what the rows are made of.
pub record HostState : Type 0 where
  pub events : List (String × EventCount)
  pub errors : List (String × Option String)

pub record HostStateRead : Type 0 where
  pub state : Option HostState
  pub age : Option ℕ

-- `STALE_AFTER_SECONDS`
abbrev stale_after : ℕ
stale_after = 120000000

-- `_ago`
pub ago : ℕ → String
ago t =
    let total = t / second in
    if ltb total 60
    then shown total <> "s"
    else if ltb total 3600
    then shown (total / 60) <> "m"
    else shown (total / 3600) <> "h"

-- `(errors or {}).get("events")` as a test.
abbrev pub events_failed : HostState → Bool
events_failed state = elim (lookup "events" state.errors) [
  | none ↦ false
  | some code ↦ is_some (nonempty code)
]

-- `kind in enabled and count.count > 0 and kind in _EVENT_LABELS`
abbrev pub is_shown : List String → String × EventCount → Bool
is_shown enabled (kind, count) = (mem kind enabled && ltb 0 count.count) && is_some (label_of kind)

-- `f"{cause} ({note})" if cause else f"({note})"`
abbrev pub add_note : Option String → String → Option String
add_note cause note = elim (nonempty cause) [
  | none ↦ some ("(" <> note <> ")")
  | some c ↦ some (c <> " (" <> note <> ")")
]

-- `for note in notes`
pub add_notes : Option String → List String → Option String
add_notes cause [] = cause
add_notes cause (note ∷ notes) = add_notes (add_note cause note) notes

abbrev pub last_seen : ℕ → EventCount → Option String
last_seen now count = elim count.last [
  | none ↦ none
  | some at ↦ some ("last " <> ago (now - at) <> " ago")
]

abbrev pub entry_of : List String → ℕ → EventCount → String × String → TroubleEntry
entry_of notes now count (label, severity) = record {
  name = label;
  node = none;
  fails = some count.count;
  fails_capped = false;
  uptime_seconds = none;
  cause = add_notes (last_seen now count) notes;
  severity = severity;
  source = "host";
}

-- The loop over the events.
pub event_rows : List String → List String → ℕ → List (String × EventCount) → List TroubleEntry
event_rows enabled notes now [] = []
event_rows enabled notes now ((kind, count) ∷ events) =
    let rest = event_rows enabled notes now events in
    if mem kind enabled && ltb 0 count.count
    then (elim (label_of kind) [ none ↦ rest | some l ↦ entry_of notes now count l ∷ rest ])
    else rest

module _ (round : ℕ → String) where
  -- `_age`
  pub age_text : ℕ → String
  age_text t = if ltb t (120 * second) then round t <> " s" else shown (t / (60 * second)) <> " min"

  -- The note of a state that is `stale`.
  abbrev stale_note : HostStateRead → List String
  stale_note read = elim read.age [
    | none ↦ []
    | some age ↦ if ltb stale_after age then ("state " <> age_text age <> " old") ∷ [] else []
  ]

  abbrev pub notes_of : HostStateRead → HostState → List String
  notes_of read state =
      stale_note read ++ (if events_failed state then "not refreshed" ∷ [] else [])

  -- `host_trouble`
  pub host_trouble : HostStateRead → ℕ → List String → List TroubleEntry
  host_trouble read now enabled = elim read.state [
    | none ↦ []
    | some state ↦ event_rows enabled (notes_of read state) now state.events
  ]

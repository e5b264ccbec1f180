-- ===== src/HostState/Tests.antt =====
-- hoststate.py: a stale state, and the theorem at it.
use terminal_status_panel.Base.{
  ℕ, ◌*◌, ◌/◌, ◌≡◌, refl, false, none, some, List, [], ◌∷◌, String, shown,
}
use terminal_status_panel.Base.Dict.{lookup}
use terminal_status_panel.Model.{second}
use terminal_status_panel.HostState.{
  HostState, HostStateRead, label_of, ago, age_text, add_notes, event_rows, host_trouble,
}

abbrev whole : ℕ → String
whole t = shown (t / second)

abbrev state : HostState
state = record {
  events =
      ("oom_kill", record { count = 2; last = some (940 * second) })
      ∷ ("unit_failed", record { count = 0; last = none })
      ∷ ("apache_reload", record { count = 1; last = none })
      ∷ [];
  errors = ("events", some "timeout") ∷ [];
}

abbrev read : HostStateRead
read = record { state = some state; age = some (180 * second) }

abbrev enabled : List String
enabled = "oom_kill" ∷ "unit_failed" ∷ []

host_trouble_lem :
    host_trouble whole read (1000 * second) enabled
    ≡ record {
      name = "host: OOM kill";
      node = none;
      fails = some 2;
      fails_capped = false;
      uptime_seconds = none;
      cause = some "last 1m ago (state 3 min old) (not refreshed)";
      severity = "dead";
      source = "host";
    }
      ∷ []
unfolding host_trouble event_rows add_notes ago age_text label_of lookup shown
host_trouble_lem = refl

-- ===== src/Docker/Trouble/Tests.antt =====
-- docker.py: a task history, and the theorems at it.
use terminal_status_panel.Base.{
  ℕ, ◌≤◌, ◌≡◌, refl, inl, inr, true, none, some, List, [], ◌∷◌, String, Elem, shown, strip,
}
use terminal_status_panel.Base.Dict.{lookup}
use terminal_status_panel.Model.Docker.{TroubleEntry}
use terminal_status_panel.Docker.{RawTask}
use terminal_status_panel.Docker.Tasks.{TaskFacts}
use terminal_status_panel.Docker.Trouble.{
  failed_at, task_cause, add_failure, add_attempts, failed_history, is_short, is_recent,
  placement_trouble, failure_trouble, service_trouble,
}
use terminal_status_panel.Docker.Trouble.Failures.{IsReported, failed_history-newest}

abbrev attempt : String → ℕ → RawTask
attempt state at = record {
  node_id = some "n1";
  state = some state;
  timestamp = some at;
  err = some "task: non-zero exit (1)";
  exit_code = some 1;
}

-- At 50e9, the first failure is older than the window, and a clean end is no failure.
abbrev history : List RawTask
history =
    attempt "failed" 1000000000
    ∷ attempt "rejected" 49000000000
    ∷ attempt "shutdown" 49500000000
    ∷ attempt "failed" 48000000000
    ∷ []

abbrev names : List (String × String)
names = ("n1", "alpha") ∷ []

abbrev facts : TaskFacts
facts = record {
  tasks = record { node = some "alpha"; state = "running" } ∷ [];
  unassigned = 0;
  newest_running_at = some 49100000000;
  placement_error = none;
}

run : Unit {0}
unfolding failed_at task_cause add_failure add_attempts failed_history is_short is_recent
    placement_trouble failure_trouble service_trouble lookup shown strip
run = tt

abbrev expected : TroubleEntry
expected = record {
  name = "web";
  node = some "alpha";
  fails = some 2;
  fails_capped = true;
  uptime_seconds = some 900000000;
  cause = some "exit 1 · \"task: non-zero exit (1)\"";
  severity = "recovered";
  source = "swarm";
}

second_failed : failed_at 50000000000 (attempt "rejected" 49000000000) ≡ some 49000000000
unfolding failed_at
second_failed = refl

failed_history-newest_example :
    (t : RawTask) × (newest : ℕ) × IsReported names 50000000000 history
      (failed_history (some history) names 50000000000)
      t
      newest
    × ((v : RawTask) (b : ℕ) → Elem v history → failed_at 50000000000 v ≡ some b → b ≤ newest)
failed_history-newest_example =
    failed_history-newest names 50000000000 history (attempt "rejected" 49000000000) 49000000000
      (inr (inl refl)) second_failed

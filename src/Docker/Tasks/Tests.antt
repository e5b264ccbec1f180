-- ===== src/Docker/Tasks/Tests.antt =====
-- docker.py: a task listing, and the theorem at it.
use terminal_status_panel.Base.{
  ℕ, ◌+◌, ◌≡◌, refl, Option, none, some, List, [], ◌∷◌, String, length,
}
use terminal_status_panel.Base.{◌-◌, ◌≤◌, ◌⊎◌, inl, Elem}
use terminal_status_panel.Base.Dict.{lookup}
use terminal_status_panel.Docker.{RawTask}
use terminal_status_panel.Docker.Tasks.{add_task, add_tasks, service_tasks, newest_task, last_run}
use terminal_status_panel.Docker.Tasks.{newer_task}

abbrev task : Option String → String → ℕ → Option String → RawTask
task node_id state at err = record {
  node_id = node_id;
  state = some state;
  timestamp = some at;
  err = err;
  exit_code = none;
}

abbrev listed : List RawTask
listed =
    task (some "n2") "running" 100 none
    ∷ task (some "") "pending" 110 (some "no suitable node ")
    ∷ task (some "n1") "running" 90 none
    ∷ task (some "n9") "starting" 120 none
    ∷ []

abbrev names : List (String × String)
names = ("n1", "alpha") ∷ ("n2", "beta") ∷ []

facts_lem : service_tasks (some listed) names ≡ record {
  tasks =
      record { node = some "alpha"; state = "running" }
      ∷ record { node = some "beta"; state = "running" }
      ∷ record { node = some "n9"; state = "starting" }
      ∷ [];
  unassigned = 1;
  newest_running_at = some 100;
  placement_error = some "no suitable node";
}
unfolding service_tasks add_tasks add_task lookup terminal_status_panel.Base.strip
facts_lem = refl

last_run_lem :
    last_run (some listed) names 150
    ≡ some (record { state = "starting"; age_seconds = some 30; node = some "n9" })
unfolding last_run newest_task newer_task lookup
last_run_lem = refl

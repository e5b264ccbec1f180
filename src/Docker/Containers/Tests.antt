-- ===== src/Docker/Containers/Tests.antt =====
-- docker.py: a container listing, and the theorems at it.
use mathlib.Core.List.{Perm}
use terminal_status_panel.Base.{
  ℕ, ◌≡◌, refl, false, none, some, List, [], ◌∷◌, String, filter, sum_of, shown, strip,
}
use terminal_status_panel.Base.Dict.{lookup, update}
use terminal_status_panel.Docker.{Container}
use terminal_status_panel.Docker.Memory.Totals.{held, usage_of, readings_of}
use terminal_status_panel.Docker.Containers.{
  no_listing, compose_identity, is_completed_job, container_cause, add_container, container_groups,
}
use terminal_status_panel.Docker.Containers.Totals.{runs_for, container_groups-memory}
use terminal_status_panel.Docker.Containers.Partition.{members, is_grouped, container_groups-perm}

abbrev box : String → List (String × String) → String → ℕ → Container
box name labels status code = record {
  id = name;
  name = name;
  labels = labels;
  client_status = none;
  status = some status;
  health = none;
  exit_code = some code;
  oom_killed = false;
  error = none;
  started = some 900;
  restarts = some 2;
  image = some "app:1@sha256:0";
  stats = some (record { usage = some 100; inactive_file = none; total_inactive_file = some 40 });
  memory = some 256;
  memory_reservation = none;
}

abbrev compose : String → List (String × String)
compose service =
    ("com.docker.compose.project", "shop") ∷ ("com.docker.compose.service", service) ∷ []

-- Two containers of one service, one that fell, a task of Swarm, a leftover and a finished job.
abbrev listed : List Container
listed =
    box "shop-db-1" (compose "db") "running" 0
    ∷ box "shop-db-2" (compose "db") "running" 0
    ∷ box "shop-web-1" (compose "web") "exited" 3
    ∷ box "task" (("com.docker.swarm.service.name", "kafka") ∷ []) "running" 0
    ∷ box "leftover" [] "exited" 1
    ∷ box "job" (compose "init") "exited" 0
    ∷ []

origins_lem :
    (container_groups 1000 listed no_listing).origins
    ≡ ("shop-db-1", "shop_db")
      ∷ ("shop-db-2", "shop_db")
      ∷ ("shop-web-1", "shop_web")
      ∷ ("task", "kafka")
      ∷ []
unfolding container_groups add_container compose_identity is_completed_job lookup update
origins_lem = refl

cause_lem : container_cause (box "shop-web-1" (compose "web") "exited" 3) ≡ some "exit 3"
unfolding container_cause shown strip
cause_lem = refl

container_groups-memory_example :
    ((held "shop_db" (container_groups 1000 listed no_listing).memory).usage
      ≡ sum_of usage_of (filter (runs_for "shop_db") listed))
    × ((held "shop_db" (container_groups 1000 listed no_listing).memory).tasks
        ≡ sum_of readings_of (filter (runs_for "shop_db") listed))
container_groups-memory_example = container_groups-memory 1000 listed "shop_db"

container_groups-perm_example :
    Perm (members (container_groups 1000 listed no_listing).groups) (filter is_grouped listed)
container_groups-perm_example = container_groups-perm 1000 listed

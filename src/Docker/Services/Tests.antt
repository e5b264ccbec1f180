-- ===== src/Docker/Services/Tests.antt =====
-- docker.py: the rows of a local container, and the theorem at it.
use terminal_status_panel.Base.{◌≡◌, refl, false, none, some, [], ◌∷◌, String, before}
use terminal_status_panel.Docker.{Container}
use terminal_status_panel.Docker.Services.{Settings, without_digest}

without_digest_lem : without_digest (some "app:1@sha256:0") ≡ some "app:1"
unfolding without_digest before
without_digest_lem = refl

abbrev settings : Settings
settings = record {
  critical = "db" ∷ [];
  description_label = "status.description";
  group_label = "status.group";
}

abbrev box : String → Container
box name = record {
  id = name;
  name = name;
  labels = [];
  client_status = none;
  status = some "running";
  health = some "unhealthy";
  exit_code = some 0;
  oom_killed = false;
  error = none;
  started = some 900;
  restarts = none;
  image = some "app:1";
  stats = none;
  memory = none;
  memory_reservation = none;
}

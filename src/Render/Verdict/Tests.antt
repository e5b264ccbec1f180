-- ===== src/Render/Verdict/Tests.antt =====
-- verdict.py: runs of the model, and the theorems at concrete inputs.
use terminal_status_panel.Base.{
  ℕ, ◌≡◌, refl, true, false, none, some, [], ◌∷◌, String, codes, show_ℕ,
}
use terminal_status_panel.Model.Docker.{task_starting, JobRun, run_failed, ServiceStatus}
use terminal_status_panel.Model.Health.{ClusterService}
use terminal_status_panel.Render.Verdict.{
  warn, glyph, style, severity, desired_of, counts, replica_icon, format_age, newest_run, last_runs,
  resting_cell, job_cell, cluster_icon, combined_icon, row_icon, verdict_icon, cell_of,
  service_verdict,
}

run : Unit {0}
unfolding service_verdict verdict_icon row_icon job_cell resting_cell newest_run last_runs counts
    desired_of replica_icon combined_icon cluster_icon severity glyph style format_age show_ℕ
    task_starting run_failed
run = tt

abbrev broker : ServiceStatus
broker = record {
  name = "kafka_broker";
  running_replicas = 3;
  desired_replicas = some 3;
  critical = false;
  stack = some "kafka";
  description = none;
  tasks = [];
  unassigned = 0;
  job = false;
  schedule = none;
  last_run = none;
  image = none;
  group = none;
  pinned = false;
  memory_bytes = none;
  memory_limit = none;
  memory_reservation = none;
  local_tasks = 0;
}

abbrev run_at : String → ℕ → JobRun
run_at state age = record { state = state; age_seconds = some age; node = none }

abbrev backup : ServiceStatus
backup = record broker {
  running_replicas = 0;
  job = true;
  last_run = some (run_at "failed" 7200000000);
}

abbrev dump : ServiceStatus
dump = record broker {
  running_replicas = 0;
  job = true;
  last_run = some (run_at "complete" 60000000);
}

abbrev cluster : ClusterService
cluster = record {
  kind = "kafka";
  name = none;
  applicable = true;
  reachable = true;
  leader = none;
  quorum_ok = some true;
  detail = none;
  members = [];
  error = none;
}

cell_failed :
    service_verdict (backup ∷ []) none none 0 ≡ record { text = codes "💀 ✗ 2h"; style = "red" }
unfolding run
cell_failed = refl

cell_degraded :
    service_verdict (record broker { running_replicas = 1 } ∷ []) (some "kafka") (some cluster) 0
    ≡ cell_of warn (codes "1/3")
unfolding run
cell_degraded = refl

-- ===== src/Docker/Trouble/Shown.antt =====
-- docker.py: which services `_service_trouble` shows, and what their entries say.
use terminal_status_panel.Base.{
  ℕ, true, ◌<◌, ◌≡◌, sym, ◌⊎◌, inl, inr, not, ◌&&◌, ◌||◌, Option, none, some, List, String, arith,
  ltb, ◌==◌, is_some, count_of, nonempty, Option-cases, if◌then◌else◌,
}
use terminal_status_panel.Model.Docker.{TroubleEntry}
use terminal_status_panel.Docker.{RawTask}
use terminal_status_panel.Docker.Tasks.{TaskFacts}
use terminal_status_panel.Docker.Trouble.{
  is_short, is_recent, is_capped, placement_trouble, service_trouble, failed_history,
}
use terminal_status_panel.Docker.Trouble.Failures.{is_failure, failed_history-fails}

module _ (tasks : List RawTask) (name : String) (names : List (String × String)) (facts : TaskFacts)
    (running : ℕ) (desired retention : Option ℕ) (now : ℕ) where
  abbrev entry : Option TroubleEntry
  entry = service_trouble (some tasks) name names facts running desired retention now

  abbrev failures : ℕ
  failures = count_of (is_failure now) tasks

  -- A service has an entry exactly when it is short of replicas or came up within the window, and
  -- besides a task of it failed within the window or Swarm says why one is not placed.
  pub service_trouble-is_some :
      is_some (service_trouble (some tasks) name names facts running desired retention now)
      ≡ (is_short running desired || is_recent now facts)
        && (not (count_of (is_failure now) tasks == 0) || is_some (nonempty facts.placement_error))
  unfolding service_trouble placement_trouble
  service_trouble-is_some =
      rw (sym (failed_history-fails names now tasks))
        (elim (Option-cases (nonempty facts.placement_error)) [
          | inl e ↦ rw e (ground arith)
          | inr (cause, e) ↦ rw e (ground arith)
        ])

  abbrev Reports : TroubleEntry → Type 0
  Reports e =
      ((is_short running desired || is_recent now facts) ≡ true)
      × (((failures ≡ 0)
            × (e.fails ≡ none)
            × ((cause : String) × (nonempty facts.placement_error ≡ some cause)
                × (e.cause ≡ some cause))
            × (e.severity ≡ "dead"))
          ⊎ ((0 < failures)
              × (e.fails ≡ some failures)
              × (e.fails_capped ≡ is_capped retention failures)
              × (e.cause ≡ (failed_history (some tasks) names now).cause)
              × (e.severity ≡ (if ltb 0 running then "recovered" else "dead"))))

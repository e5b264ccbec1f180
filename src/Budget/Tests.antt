-- ===== src/Budget/Tests.antt =====
-- budget.py: runs of the model, and the theorems at concrete inputs.
use terminal_status_panel.Base.{ℕ, ◌+◌, ◌≤◌, ◌≡◌, refl, ◌⊎◌, false, List, [], ◌∷◌, All}
use terminal_status_panel.Base.Dict.{lookup}
use terminal_status_panel.Budget.{
  returns, raises, hangs, alive_at, Task, Limits, deadline_of, returned_by, raised_by, join_loop,
  run_with_budget, join_stragglers, exit_grace,
}
use terminal_status_panel.Budget.Expiry.{late_names}
use terminal_status_panel.Budget.Outcome.{
  NodupNames, on_time_results, on_time_failures, run_with_budget_lem,
}
use terminal_status_panel.Budget.Grace.{join_stragglers-le}

run : Unit {0}
unfolding run_with_budget join_loop deadline_of lookup returned_by raised_by
run = tt

-- Started at 1000, with 500 in all and 100 for the DNS check.
abbrev limits : Limits
limits = record { budget = 500; timeouts = ("dns", 100) ∷ []; started = 1000 }

abbrev tasks : List (Task ℕ)
tasks =
    record { name = "docker"; ending = returns 1400 7 }
    ∷ record { name = "dns"; ending = returns 1200 8 }
    ∷ record { name = "host"; ending = raises 1010 "OSError: no" }
    ∷ record { name = "kafka"; ending = hangs }
    ∷ []

run_runs : run_with_budget limits [] tasks ≡ (
  record {
    results = ("docker", 7) ∷ [];
    truncated = "dns" ∷ "kafka" ∷ [];
    failed = ("host", "OSError: no") ∷ [];
  },
  record { name = "kafka"; ending = hangs } ∷ [],
  1500,
)
unfolding run
run_runs = refl

distinct : NodupNames tasks
distinct = ((refl, (refl, (refl, tt))), ((refl, (refl, tt)), ((refl, tt), (tt, tt))))

run_with_budget_lem_example :
    ((run_with_budget limits [] tasks).0 ≡ record {
      results = on_time_results limits tasks;
      truncated = late_names limits tasks;
      failed = on_time_failures limits tasks;
    })
    × ((run_with_budget limits [] tasks).2 ≤ 1500)
run_with_budget_lem_example = run_with_budget_lem limits [] tasks distinct

join_stragglers-le_example :
    ((join_stragglers 1100 tasks).0 ≤ 1100 + exit_grace)
    × ((join_stragglers 1100 tasks).1 ≡ [])
    × All
        (λ (t : Task ℕ).
          (alive_at (join_stragglers 1100 tasks).0 t.ending ≡ false)
          ⊎ ((join_stragglers 1100 tasks).0 ≡ 1100 + exit_grace))
        tasks
join_stragglers-le_example = join_stragglers-le 1100 tasks

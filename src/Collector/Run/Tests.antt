-- ===== src/Collector/Run/Tests.antt =====
-- collector/run.py on a host without Apache, whose journal source raises.
use terminal_status_panel.Base.{ℕ, ◌≡◌, ◌⊎◌, true, false, Option, none, some, [], ◌∷◌, ◌==◌}
use terminal_status_panel.Base.Dict.{lookup}
use terminal_status_panel.StateFile.{Floats}
use terminal_status_panel.Collector.Vrrp.{absent, not_json}
use terminal_status_panel.Collector.Run.{Sources, run}
use terminal_status_panel.Collector.Run.Errors.{run-cleans}

abbrev floats : Floats ℕ
floats = record {
  is_finite = λ f. true;
  is_one = λ f. f == 1000;
  is_zero = λ f. f == 0;
  of_int = λ n. none;
}

abbrev as_int : ℕ → Option ℕ
as_int f = none

abbrev sources : Sources ℕ
sources = record {
  enabled = "vrrp" ∷ [];
  url = "";
  apache = none;
  updates = λ before. some (none, some "timeout");
  events = none;
  version = "0.1";
  now = 7000;
}

run-cleans_example :
    ((run floats as_int sources true false not_json none).1 ≡ absent)
    ⊎ (lookup "vrrp" ((run floats as_int sources true false not_json none).0.errors)
        ≡ some (some "cleanup"))
run-cleans_example = run-cleans floats as_int sources true false not_json none

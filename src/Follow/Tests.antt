-- ===== src/Follow/Tests.antt =====
-- follow.py: runs of the model, and the theorems at concrete inputs.
use terminal_status_panel.Base.{
  ℕ, ◌+◌, ◌*◌, ◌/◌, ◌≤◌, ◌≡◌, refl, true, none, some, List, [], ◌∷◌, Text, codes, show_ℕ, length,
}
use terminal_status_panel.Follow.{
  FollowConfig, lines, failed, Pass, Event, pass, interrupt, default_interval, next_delay, present,
  separator, join, row, stop_hint, hidden_part, shortened, interval_part, shorten, status_line,
  follow_loop, run_follow,
}
use terminal_status_panel.Follow.StatusLine.{status_line-le}
use terminal_status_panel.Follow.Loop.{
  passes_done, passes_drawn, AllShow, follow_loop-fits, run_follow_pace,
}

-- Whole seconds: enough of `:g` for the tests.
seconds : ℕ → Text
unfolding show_ℕ
seconds ms = show_ℕ (ms / 1000)

abbrev config : FollowConfig
config = record { follow_interval = 5000; follow_health_interval = 20000 }

rows : Unit {0}
unfolding status_line shorten shortened interval_part hidden_part stop_hint separator row join
    present seconds
rows = tt

row_full :
    status_line seconds 3 5000 80 (some (codes "OSError: no"))
    ≡ codes "↓ 3 more lines · every 5s · OSError: no · Ctrl-C to stop"
unfolding rows show_ℕ
row_full = refl

row_shortened :
    status_line seconds 3 5000 40 (some (codes "OSError: no such file"))
    ≡ codes "every 5s · OSError: no  · Ctrl-C to stop"
unfolding rows show_ℕ
row_shortened = refl

row_hint_lost :
    status_line seconds 3 5000 26 (some (codes "OSError: no")) ≡ codes "↓ 3 more lines · every 5s "
unfolding rows show_ℕ
row_hint_lost = refl

status_line-le_example : length (status_line seconds 3 5000 26 (some (codes "OSError"))) ≤ 26
status_line-le_example = status_line-le seconds 3 5000 26 (some (codes "OSError"))

abbrev quick : Pass
quick = record {
  rendered = lines (((record { text = codes "a"; style = none }) ∷ []) ∷ []);
  elapsed = 400;
  width = 80;
  height = 24;
}

abbrev slow : Pass
slow = record { rendered = failed (codes "E: x"); elapsed = 9000; width = 80; height = 24 }

abbrev events : List Event
events = pass quick ∷ pass slow ∷ pass quick ∷ interrupt ∷ pass quick ∷ []

follow_loop-fits_example :
    AllShow seconds 5000 (passes_drawn events) (follow_loop seconds 5000 events).frames
follow_loop-fits_example = follow_loop-fits seconds 5000 events

run_follow_pace_example :
    ((run_follow seconds config ("docker" ∷ []) (some 0) true [] events).worked
      ≤ (run_follow seconds config ("docker" ∷ []) (some 0) true [] events).waited)
    × (passes_done events * 1000
        ≤ (run_follow seconds config ("docker" ∷ []) (some 0) true [] events).worked
          + (run_follow seconds config ("docker" ∷ []) (some 0) true [] events).waited)
run_follow_pace_example = run_follow_pace seconds config ("docker" ∷ []) (some 0) [] events

next_delay_runs : (next_delay 5000 400 ≡ 4600) × (next_delay 5000 9000 ≡ 9000)
unfolding next_delay
next_delay_runs = (refl, refl)

default_interval_runs :
    (default_interval ("docker" ∷ "health" ∷ []) config ≡ 20000)
    × (default_interval ("docker" ∷ []) config ≡ 5000)
unfolding default_interval
default_interval_runs = (refl, refl)

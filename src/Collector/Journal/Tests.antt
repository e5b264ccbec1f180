-- ===== src/Collector/Journal/Tests.antt =====
-- journal.py: runs of the model, and the theorems at concrete inputs.
use terminal_status_panel.Base.{
  ℕ, ◌≡◌, refl, ◌≢◌, inr, true, none, some, List, [], ◌∷◌, ◌++◌, arith, str_eq, if◌then◌else◌,
}
use terminal_status_panel.Collector.Journal.{
  EventKind, oom_kill, unit_failed, Line, object, other, no_stamps, scan, counts, matches,
  add_entry, normalized, Saved, load, Request, after_cursor, since, Reply, not_found, exited,
  read_window, usable_cursor, keep_read, collect_events, last_of,
}
use terminal_status_panel.Collector.Journal.Window.{
  saved_after, counts_of, collect_events_incremental, collect_events_full,
}

abbrev enabled : List EventKind
enabled = oom_kill ∷ unit_failed ∷ []

-- Two lines that the patterns know, one of another program, and one that is no object.
abbrev killed : ℕ → Line
killed at = object (record {
  cursor = some "a";
  realtime = some at;
  transport = some "kernel";
  identifier = none;
  unit = none;
  pid = none;
  text = some "Out of memory: Killed process 7";
})

abbrev failed : ℕ → Line
failed at = object (record {
  cursor = some "b";
  realtime = some at;
  transport = none;
  identifier = none;
  unit = none;
  pid = some "1";
  text = some "x.service: Failed with result 'exit-code'.";
})

abbrev old : List Line
old = killed 43100000000 ∷ other ∷ failed 43200000000 ∷ []

abbrev new : List Line
new = failed 86300000000 ∷ []

-- journalctl that knows the cursor "b" and no other.
abbrev journal : Request → Reply
journal (after_cursor cursor) = if str_eq cursor "b" then exited 0 new else exited 1 []
journal (since start) = exited 0 new

run : Unit {0}
unfolding collect_events read_window usable_cursor keep_read scan matches add_entry counts
    normalized last_of
run = tt

-- At 86.35e9 the stamp 43.1e9 has left the window.
run_counts :
    (collect_events
      (some (saved_after enabled 43300000000 old))
      86350000000
      enabled
      journal
      true).events
    ≡ (oom_kill, record { count = 0; last = none })
      ∷ (unit_failed, record { count = 2; last = some 86300000000 })
      ∷ []
unfolding run
run_counts = refl

last_cursor : (scan enabled old no_stamps none).1 ≡ some "b"
unfolding scan
last_cursor = refl

collect_events_incremental_example :
    collect_events (some (saved_after enabled 43300000000 old)) 86350000000 enabled journal true
    ≡ record {
      events = counts_of enabled 86350000000 (old ++ new);
      error = none;
      file = some (saved_after enabled 86350000000 (old ++ new));
    }
collect_events_incremental_example =
    collect_events_incremental enabled 43300000000 86350000000 old new "b" journal (omega arith)
      last_cursor refl refl

abbrev stale : Saved
stale = record { cursor = some "z"; kinds = some (normalized enabled); events = no_stamps }

stale_cursor : usable_cursor (load (some stale)) (normalized enabled) ≡ some "z"
unfolding usable_cursor normalized
stale_cursor = refl

collect_events_full_example :
    collect_events (some stale) 86350000000 enabled journal true ≡ record {
      events = counts_of enabled 86350000000 new;
      error = none;
      file = some (saved_after enabled 86350000000 new);
    }
unfolding usable_cursor normalized
collect_events_full_example =
    collect_events_full (some stale) 86350000000 enabled journal new (inr (1, [], refl, refl)) refl

no_journal_error :
    (collect_events (some stale) 86350000000 enabled (λ request. not_found) true).error ≢ none
unfolding collect_events read_window usable_cursor normalized
no_journal_error = ground arith

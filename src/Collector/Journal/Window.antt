-- ===== src/Collector/Journal/Window.antt =====
-- journal.py: incremental reads count what one full read would count.
use mathlib.Core.Path.{fun_ext}
use terminal_status_panel.Base.{
  ℕ, ◌-◌, ◌/◌, ◌≤◌, ◌≡◌, refl, ap, sym, ◌∙◌, ◌≢◌, ◌⊎◌, Bool, true, false, Option, none, some, List,
  [], ◌∷◌, ◌++◌, String, arith, filter-append, str_eq, Bool-cases, inl, inr, ==_refl, ◌==◌,
}
use terminal_status_panel.Model.{second}
use terminal_status_panel.Collector.Journal.{
  EventKind, Line, Stamps, no_stamps, scan, EventCount, is_recent, recent, counts, normalized,
  same_kinds, Saved, load, Request, after_cursor, since, Reply, not_found, timed_out, exited,
  read_window, Collected, usable_cursor, keep_read, after_reply, collect_events, window,
}
use terminal_status_panel.Collector.Journal.Scan.{
  found, found-append, scan-append, scan-cursor, scan_twice,
}

-- A stamp that is recent now was recent before.
recent-recent :
    (before now : ℕ) (xs : List ℕ) → before ≤ now → recent now (recent before xs) ≡ recent now xs
recent-recent before now [] h = refl
recent-recent before now (x ∷ xs) h = ground (arith, recent-recent before now xs h)

recent-append_recent :
    (before now : ℕ) (xs ys : List ℕ)
    → before ≤ now
    → recent now (recent before xs ++ ys) ≡ recent now (xs ++ ys)
recent-append_recent before now xs ys h =
    filter-append (is_recent now) (recent before xs) ys
    ∙ ap (λ zs. zs ++ recent now ys) (recent-recent before now xs h)
    ∙ sym (filter-append (is_recent now) xs ys)

same_kinds_refl : (kinds : List EventKind) → same_kinds kinds kinds ≡ true
same_kinds_refl [] = refl
same_kinds_refl (k ∷ kinds) = rw (==_refl, same_kinds_refl kinds)

-- The state that a run leaves which has read all of these lines and nothing else.
abbrev pub saved_after : List EventKind → ℕ → List Line → Saved
saved_after enabled now lines = record {
  cursor = (scan enabled lines no_stamps none).1;
  kinds = some (normalized enabled);
  events = λ k. recent now (found enabled lines k);
}

-- The counts of one read of all of these lines.
abbrev pub counts_of : List EventKind → ℕ → List Line → List (EventKind × EventCount)
counts_of enabled now lines = counts (λ k. recent now (found enabled lines k)) now enabled

-- A run, no earlier than one that had read the lines `old` for the same kinds and saved a cursor that
-- is not empty: if the journal answers that cursor with the lines `new` and code 0, then the counts,
-- and the state saved, are those of one read of all the lines together. Nothing is counted twice and
-- nothing is lost.
pub collect_events_incremental :
    (enabled : List EventKind) (before now : ℕ) (old new : List Line) (cursor : String)
    (runner : Request → Reply)
    → before ≤ now
    → (scan enabled old no_stamps none).1 ≡ some cursor
    → str_eq cursor "" ≡ false
    → runner (after_cursor cursor) ≡ exited 0 new
    → collect_events (some (saved_after enabled before old)) now enabled runner true ≡ record {
      events = counts_of enabled now (old ++ new);
      error = none;
      file = some (saved_after enabled now (old ++ new));
    }
unfolding collect_events read_window usable_cursor keep_read
collect_events_incremental enabled before now old new cursor runner later last named reply =
    rw (same_kinds_refl (normalized enabled), last, named, reply)
      (λ i. record {
        events = counts (stamps i) now enabled;
        error = none;
        file =
            some
              (record { cursor = cursors i; kinds = some (normalized enabled); events = stamps i });
      })
  where
    start : Stamps
    start k = recent before (found enabled old k)

    stamps :
        ◌≡◌ {A = Stamps}
          (λ k. recent now ((scan enabled new start (some cursor)).0 k))
          (λ k. recent now (found enabled (old ++ new) k))
    stamps = fun_ext (λ k.
        ap (recent now) (scan-append enabled new start (some cursor) k)
        ∙ recent-append_recent before now (found enabled old k) (found enabled new k) later
        ∙ ap (recent now) (sym (found-append enabled old new k)))

    cursors :
        (scan enabled new start (some cursor)).1 ≡ (scan enabled (old ++ new) no_stamps none).1
    cursors =
        ap (λ c. (scan enabled new start c).1) (sym last)
        ∙ scan-cursor enabled new start (found enabled old) (scan enabled old no_stamps none).1
        ∙ sym (ap (λ (r : Stamps × Option String). r.1) (scan_twice enabled old new no_stamps none))

-- What an incremental read needs is missing: there is no cursor saved for these kinds, or it is
-- empty, or journalctl refuses it.
abbrev pub NeedsFull : Option String → (Request → Reply) → Type 0
NeedsFull none runner = Unit
NeedsFull (some cursor) runner =
    (str_eq cursor "" ≡ true)
    ⊎ ((code : ℕ) × (lines : List Line) × ((code == 0) ≡ false)
        × (runner (after_cursor cursor) ≡ exited code lines))

read_window-full :
    (runner : Request → Reply) (cursor : Option String) (start : ℕ)
    → NeedsFull cursor runner
    → read_window runner cursor start ≡ (runner (since start), true)
unfolding read_window
read_window-full runner none start h = refl
read_window-full runner (some cursor) start (inl e) = rw e
read_window-full runner (some cursor) start (inr (code, lines, failed, e)) =
    elim (Bool-cases (str_eq cursor "")) [
      | inl empty ↦ rw empty
      | inr named ↦ rw (named, e, failed)
    ]

-- If no cursor is saved for the enabled kinds, or it is empty, or journalctl refuses it, and the full
-- read exits with 0: the counts and the state saved are those of the lines of the window alone, and
-- what was saved before is not counted again.
pub collect_events_full :
    (file : Option Saved) (now : ℕ) (enabled : List EventKind) (runner : Request → Reply)
    (lines : List Line)
    → NeedsFull (usable_cursor (load file) (normalized enabled)) runner
    → runner (since ((now - window) / second)) ≡ exited 0 lines
    → collect_events file now enabled runner true ≡ record {
      events = counts_of enabled now lines;
      error = none;
      file = some (saved_after enabled now lines);
    }
unfolding collect_events keep_read
collect_events_full file now enabled runner lines needs reply = rw (
  read_window-full runner (usable_cursor (load file) (normalized enabled)) ((now - window) / second)
      needs,
  reply,
)

-- A run that reports an error leaves the state file alone and repeats the saved counts.
pub collect_events_failed :
    (file : Option Saved) (now : ℕ) (enabled : List EventKind) (runner : Request → Reply)
    (writable : Bool)
    → (collect_events file now enabled runner writable).error ≢ none
    → ((collect_events file now enabled runner writable).file ≡ file)
      × ((collect_events file now enabled runner writable).events
          ≡ counts (load file).events now enabled)
unfolding collect_events keep_read
collect_events_failed file now enabled runner writable h =
    replied
      (read_window runner (usable_cursor (load file) (normalized enabled))
        ((now - window) / second))
      h
  where
    collected : Reply × Bool → Collected
    collected (reply, full) =
        after_reply file now enabled writable (usable_cursor (load file) (normalized enabled)) reply
          full

    replied :
        (r : Reply × Bool)
        → (collected r).error ≢ none
        → ((collected r).file ≡ file)
          × ((collected r).events ≡ counts (load file).events now enabled)
    replied (not_found, full) h = (refl, refl)
    replied (timed_out, full) h = (refl, refl)
    replied (exited code lines, full) h = ground arith

-- A state file that cannot be written changes neither the counts nor the error of the run.
pub collect_events_unwritable :
    (file : Option Saved) (now : ℕ) (enabled : List EventKind) (runner : Request → Reply)
    → collect_events file now enabled runner false
      ≡ record (collect_events file now enabled runner true) { file = file }
unfolding collect_events keep_read
collect_events_unwritable file now enabled runner =
    replied (
      read_window runner (usable_cursor (load file) (normalized enabled)) ((now - window) / second))
  where
    collected : Bool → Reply × Bool → Collected
    collected writable (reply, full) =
        after_reply file now enabled writable (usable_cursor (load file) (normalized enabled)) reply
          full

    replied : (r : Reply × Bool) → collected false r ≡ record (collected true r) { file = file }
    replied (not_found, full) = refl
    replied (timed_out, full) = refl
    replied (exited code lines, full) = elim (Bool-cases (code == 0)) [
      | inl e ↦ rw e
      | inr e ↦ rw e
    ]

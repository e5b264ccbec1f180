-- ===== src/HostState/Rows.antt =====
-- hoststate.py: which events have a row.
use terminal_status_panel.Base.{
  ℕ, ◌≡◌, refl, ap, inl, inr, ◌&&◌, Option, some, List, [], ◌∷◌, map, String, ltb, filter, mem,
  Bool-cases, Option-cases,
}
use terminal_status_panel.Model.Docker.{TroubleEntry}
use terminal_status_panel.Collector.Journal.{EventCount}
use terminal_status_panel.HostState.{
  HostState, HostStateRead, label_of, is_shown, event_rows, notes_of, host_trouble,
}

abbrev pub count_of_event : String × EventCount → Option ℕ
count_of_event (kind, count) = some count.count

abbrev pub fails_of : TroubleEntry → Option ℕ
fails_of entry = entry.fails

event_rows-fails :
    (enabled notes : List String) (now : ℕ) (events : List (String × EventCount))
    → map fails_of (event_rows enabled notes now events)
      ≡ map count_of_event (filter (is_shown enabled) events)
unfolding event_rows
event_rows-fails enabled notes now [] = refl
event_rows-fails enabled notes now ((kind, count) ∷ events) =
    elim (Bool-cases (mem kind enabled && ltb 0 count.count)) [
      | inr hidden ↦ rw hidden (event_rows-fails enabled notes now events)
      | inl shown ↦ elim (Option-cases (label_of kind)) [
        | inl e ↦ rw (shown, e) (event_rows-fails enabled notes now events)
        | inr (l, e) ↦
            rw (shown, e)
              (ap (λ xs. some count.count ∷ xs) (event_rows-fails enabled notes now events))
      ]
    ]

-- The rows are, in the order of the state file, those of the enabled kinds that happened and that
-- have a label, each with its count; however old the state is, and whatever failed.
pub host_trouble-fails :
    (round : ℕ → String) (read : HostStateRead) (state : HostState) (now : ℕ)
    (enabled : List String)
    → read.state ≡ some state
    → map fails_of (host_trouble round read now enabled)
      ≡ map count_of_event (filter (is_shown enabled) state.events)
unfolding host_trouble
host_trouble-fails round read state now enabled e =
    rw (host_trouble, e) (event_rows-fails enabled (notes_of round read state) now state.events)

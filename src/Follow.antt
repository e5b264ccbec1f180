-- ===== src/Follow.antt =====
-- src/terminal_status_panel/follow.py: the decisions of follow mode and its loop.
-- Times are milliseconds. `{interval:g}`, the interpreter's float format, is the parameter `show_g`.
pub mod Rows
pub mod Joined
pub mod StatusLine
pub mod Loop
mod Tests
use terminal_status_panel.Base.{
  ℕ, ◌+◌, ◌-◌, ◌<>◌, Bool, true, false, Option, none, some, List, [], ◌∷◌, ◌++◌, String, max, Text,
  codes, show_ℕ, mem, length, take, ltb, leb, if◌then◌else◌, is_some,
}

abbrev pub min_interval : ℕ
min_interval = 1000

-- The two keys of `Config` that follow mode reads.
pub record FollowConfig : Type 0 where
  pub follow_interval : ℕ
  pub follow_health_interval : ℕ

pub default_interval : List String → FollowConfig → ℕ
default_interval sections cfg =
    if mem "health" sections then cfg.follow_health_interval else cfg.follow_interval

-- `elapsed` is not negative, so a pass that overran gives 0 for the first term where the source
-- has a negative number, and `max` takes the second either way.
pub next_delay : ℕ → ℕ → ℕ
next_delay interval elapsed = max (interval - elapsed) elapsed

pub crop {ℓ} : {A : Type ℓ} → List A → ℕ → List A × ℕ
crop lines height =
    if leb height 0
    then ([], 0)
    else let room = height - 1 in
      if leb (length lines) room then (lines, 0) else (take room lines, length lines - room)

-- The parts that exist: neither `None` nor empty.
pub present : List (Option Text) → List Text
present [] = []
present (none ∷ parts) = present parts
present (some [] ∷ parts) = present parts
present (some (c ∷ s) ∷ parts) = (c ∷ s) ∷ present parts

pub separator : Text
separator = codes " · "

pub join : List Text → Text
join [] = []
join (x ∷ []) = x
join (x ∷ y ∷ rest) = x ++ (separator ++ join (y ∷ rest))

pub row : List (Option Text) → Text
row parts = join (present parts)

pub stop_hint : Text
stop_hint = codes "Ctrl-C to stop"

pub hidden_part : ℕ → Option Text
hidden_part hidden =
    if ltb 0 hidden then some (codes "↓ " ++ (show_ℕ hidden ++ codes " more lines")) else none

-- The truth of an optional text.
abbrev pub truthy : Option Text → Bool
truthy none = false
truthy (some []) = false
truthy (some (c ∷ s)) = true

-- The `for prefix in …` loop, with the source's early return.
pub shortened : Text → Text → ℕ → List (Option Text) → Option Text
shortened interval_str error width [] = none
shortened interval_str error width (prefix ∷ prefixes) =
    let kept = row (prefix ∷ some interval_str ∷ some stop_hint ∷ []) in
    let rest = shortened interval_str error width prefixes in
    if ltb (length kept + 3) width
    then some (
        take width (
          row (
            prefix
            ∷ some interval_str
            ∷ some (take (width - (length kept + 3)) error)
            ∷ some stop_hint
            ∷ [])))
    else rest

module _ (show_g : ℕ → Text) where
  pub interval_part : ℕ → Text
  interval_part interval = codes "every " ++ (show_g interval ++ codes "s")

  -- The branches with an error that did not fit whole.
  pub shorten : ℕ → Text → ℕ → Text → Text
  shorten hidden interval_str width error =
      let without_error = row (hidden_part hidden ∷ some interval_str ∷ some stop_hint ∷ []) in
      let prefixes : List (Option Text) =
        (if is_some (hidden_part hidden) then hidden_part hidden ∷ [] else []) ++ none ∷ [] in
      if leb (length without_error) width
      then without_error
      else elim (shortened interval_str error width prefixes) [
        | none ↦ take width without_error
        | some line ↦ line
      ]

  -- Once the cadence and the hint are known to fit beside one another.
  pub without_full : ℕ → ℕ → ℕ → Option Text → Text
  without_full hidden interval width none =
      row (some (interval_part interval) ∷ some stop_hint ∷ [])
  without_full hidden interval width (some text) =
      if truthy (some text)
      then shorten hidden (interval_part interval) width text
      else row (some (interval_part interval) ∷ some stop_hint ∷ [])

  pub status_line : ℕ → ℕ → ℕ → Option Text → Text
  unfolding without_full
  status_line hidden interval width error =
      let interval_str = interval_part interval in
      let full = row (hidden_part hidden ∷ some interval_str ∷ error ∷ some stop_hint ∷ []) in
      let minimal = row (some interval_str ∷ some stop_hint ∷ []) in
      if leb (length full) width
      then full
      else if ltb width (length minimal)
      then take width stop_hint
      else without_full hidden interval width error

-- A stretch of text in one style.
pub record Segment : Type 0 where
  pub text : Text
  pub style : Option String

-- What `collect_all` and the renderer gave in one pass: lines, or the text of an exception.
pub data Rendered : Type 0 where
  lines : List (List Segment) → Rendered
  failed : Text → Rendered

-- One pass: what it rendered, how long it took, and the console's size at its end.
pub record Pass : Type 0 where
  pub rendered : Rendered
  pub elapsed : ℕ
  pub width : ℕ
  pub height : ℕ

-- A pass with its whole wait, a Ctrl-C before the frame is drawn, and one during the wait.
pub data Event : Type 0 where
  pass : Pass → Event
  interrupt : Event
  interrupt_wait : Pass → Event

-- What one screen update shows.
pub record Frame : Type 0 where
  pub rows : List (List Segment)

-- `status` is `none` while the loop runs. `worked` and `waited` sum the passes that ran to the end.
pub record Outcome : Type 0 where
  pub status : Option ℕ
  pub frames : List Frame
  pub worked : ℕ
  pub waited : ℕ

abbrev pub rendered_lines : Rendered → List (List Segment)
rendered_lines (lines ls) = ls
rendered_lines (failed text) = []

abbrev pub error_of : Rendered → Option Text
error_of (lines ls) = none
error_of (failed text) = some text

-- The interval asked for, or the default of the sections, raised to the minimum.
pub chosen_interval : Option ℕ → List String → FollowConfig → ℕ
chosen_interval none sections cfg = max (default_interval sections cfg) min_interval
chosen_interval (some interval) sections cfg = max interval min_interval

module _ (show_g : ℕ → Text) where
  -- The frame of a pass: the lines that fit, and the status row with the cadence being kept.
  pub draw : ℕ → Pass → Frame
  draw chosen p =
      let delay = next_delay chosen p.elapsed in
      let (kept, hidden) = crop (rendered_lines p.rendered) p.height in
      let line = status_line show_g hidden (p.elapsed + delay) p.width (error_of p.rendered) in
      record { rows = kept ++ (record { text = line; style = none } ∷ []) ∷ [] }

  -- `while True` over what happens; a list that ends leaves the loop running.
  pub follow_loop : ℕ → List Event → Outcome
  follow_loop chosen [] = record { status = none; frames = []; worked = 0; waited = 0 }
  follow_loop chosen (interrupt ∷ events) = record {
    status = some 0;
    frames = [];
    worked = 0;
    waited = 0;
  }
  follow_loop chosen (interrupt_wait p ∷ events) = record {
    status = some 0;
    frames = draw chosen p ∷ [];
    worked = 0;
    waited = 0;
  }
  follow_loop chosen (pass p ∷ events) =
      let later = follow_loop chosen events in
      record {
        status = later.status;
        frames = draw chosen p ∷ later.frames;
        worked = p.elapsed + later.worked;
        waited = next_delay chosen p.elapsed + later.waited;
      }

  -- Off a terminal one frame is printed whole, with no status row and no loop.
  pub run_follow :
      FollowConfig → List String → Option ℕ → Bool → List (List Segment) → List Event → Outcome
  run_follow cfg sections interval tty once events =
      if tty
      then follow_loop (chosen_interval interval sections cfg) events
      else record { status = some 0; frames = record { rows = once } ∷ []; worked = 0; waited = 0 }

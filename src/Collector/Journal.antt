-- ===== src/Collector/Journal.antt =====
-- src/terminal_status_panel/collector/journal.py: host events counted from the journal, read
-- incrementally. Stamps and `now` are microseconds. journalctl is the parameter `runner`; whether
-- the state file can be written is the parameter `writable`. A dict of stamps is a function that
-- gives the empty list for a missing kind.
pub mod Scan
pub mod Window
mod Tests
use text.Mathlib.Text.{starts_with, find?}
use terminal_status_panel.Base.{
  ℕ, ◌+◌, ◌-◌, ◌/◌, max, Bool, true, false, not, ◌&&◌, ◌||◌, Option, none, some, List, [], ◌∷◌,
  ◌++◌, String, ltb, ◌==◌, length, any, filter, str_eq, is_some, if◌then◌else◌,
}
use terminal_status_panel.Model.{second}

-- Twelve hours.
abbrev pub window : ℕ
window = 43200000000

pub data EventKind : Type 0 where
  oom_kill vrrp_state apache_slots_full unit_failed apache_reload : EventKind

abbrev pub code_of : EventKind → ℕ
code_of oom_kill = 0
code_of vrrp_state = 1
code_of apache_slots_full = 2
code_of unit_failed = 3
code_of apache_reload = 4

abbrev pub same_kind : EventKind → EventKind → Bool
same_kind a b = code_of a == code_of b

-- A journal entry: the fields that the patterns read, absent where the journal has none.
pub record Entry : Type 0 where
  pub cursor : Option String
  pub realtime : Option ℕ
  pub transport : Option String
  pub identifier : Option String
  pub unit : Option String
  pub pid : Option String
  pub text : Option String

-- A line of output: a JSON object, or anything else.
pub data Line : Type 0 where
  object : Entry → Line
  other : Line

abbrev message : Entry → String
message e = elim e.text [ none ↦ "" | some s ↦ s ]

abbrev field_is : Option String → String → Bool
field_is none s = false
field_is (some f) s = str_eq f s

-- `piece in s`
abbrev contains : String → String → Bool
contains piece s = is_some (find? s piece)

-- `PATTERNS[kind](entry)`
pub matches : EventKind → Entry → Bool
matches oom_kill e = field_is e.transport "kernel" && contains "Killed process" (message e)
matches vrrp_state e =
    field_is e.identifier "Keepalived_vrrp"
    && (contains "Entering MASTER STATE" (message e)
        || contains "Entering BACKUP STATE" (message e)
        || contains "Entering FAULT STATE" (message e))
matches apache_slots_full e =
    (field_is e.unit "apache2.service" || field_is e.unit "httpd.service")
    && contains "AH03490" (message e)
matches unit_failed e = field_is e.pid "1" && contains "Failed with result" (message e)
matches apache_reload e =
    field_is e.pid "1"
    && (starts_with (message e) "Reloading apache2.service"
        || starts_with (message e) "Reloading httpd.service")

abbrev pub Stamps : Type 0
Stamps = EventKind → List ℕ

abbrev pub no_stamps : Stamps
no_stamps kind = []

-- `stamps.setdefault(kind, []).append(at)`
abbrev pub add_stamp : EventKind → ℕ → Stamps → Stamps
add_stamp kind at stamps k = if same_kind k kind then stamps k ++ (at ∷ []) else stamps k

-- `for kind in enabled`
pub add_entry : List EventKind → Entry → ℕ → Stamps → Stamps
add_entry [] e at stamps = stamps
add_entry (kind ∷ enabled) e at stamps =
    add_entry enabled e at (if matches kind e then add_stamp kind at stamps else stamps)

abbrev pub or_last : Option String → Option String → Option String
or_last none last = last
or_last (some c) last = some c

abbrev pub add_timed : List EventKind → Entry → Stamps → Stamps
add_timed enabled e stamps = elim e.realtime [
  | none ↦ stamps
  | some at ↦ add_entry enabled e at stamps
]

-- `_scan`: the stamps with the matching entries added, and the last cursor seen.
pub scan : List EventKind → List Line → Stamps → Option String → Stamps × Option String
scan enabled [] stamps cursor = (stamps, cursor)
scan enabled (other ∷ lines) stamps cursor = scan enabled lines stamps cursor
scan enabled (object e ∷ lines) stamps cursor =
    scan enabled lines (add_timed enabled e stamps) (or_last e.cursor cursor)

pub record EventCount : Type 0 where
  pub count : ℕ
  pub last : Option ℕ

-- `t > now - WINDOW`
abbrev pub is_recent : ℕ → ℕ → Bool
is_recent now t = ltb now (t + window)

abbrev pub recent : ℕ → List ℕ → List ℕ
recent now = filter (is_recent now)

pub last_of : List ℕ → Option ℕ
last_of [] = none
last_of (t ∷ ts) = elim (last_of ts) [ none ↦ some t | some u ↦ some (max t u) ]

abbrev pub count_recent : ℕ → List ℕ → EventCount
count_recent now ts = record { count = length (recent now ts); last = last_of (recent now ts) }

-- `_counts`
pub counts : Stamps → ℕ → List EventKind → List (EventKind × EventCount)
counts stamps now [] = []
counts stamps now (kind ∷ enabled) =
    (kind, count_recent now (stamps kind)) ∷ counts stamps now enabled

-- `sorted(set(enabled))`, the names in the order of the alphabet.
pub normalized : List EventKind → List EventKind
normalized enabled =
    filter (λ k. any (same_kind k) enabled)
      (apache_reload ∷ apache_slots_full ∷ oom_kill ∷ unit_failed ∷ vrrp_state ∷ [])

abbrev pub same_kinds : List EventKind → List EventKind → Bool
same_kinds [] [] = true
same_kinds [] (b ∷ bs) = false
same_kinds (a ∷ as') [] = false
same_kinds (a ∷ as') (b ∷ bs) = same_kind a b && same_kinds as' bs

-- The saved state. `_load` gives none of the three for a file that cannot be read as one.
pub record Saved : Type 0 where
  pub cursor : Option String
  pub kinds : Option (List EventKind)
  pub events : Stamps

abbrev pub nothing_saved : Saved
nothing_saved = record { cursor = none; kinds = none; events = no_stamps }

abbrev pub load : Option Saved → Saved
load none = nothing_saved
load (some saved) = saved

-- The two ways in which journalctl is called, `since` with whole seconds.
pub data Request : Type 0 where
  after_cursor : String → Request
  since : ℕ → Request

-- How a call ends: there is no journalctl, it ran out of time, or it exited.
pub data Reply : Type 0 where
  not_found : Reply
  timed_out : Reply
  exited : ℕ → List Line → Reply

-- A reading: a reply, with whether the window was read in full.
abbrev pub read_full : (Request → Reply) → ℕ → Reply × Bool
read_full runner start = (runner (since start), true)

-- A lost cursor, one that journalctl refuses, leads to a full read. An exception does not.
abbrev pub after_incremental : (Request → Reply) → ℕ → Reply → Reply × Bool
after_incremental runner start not_found = (not_found, false)
after_incremental runner start timed_out = (timed_out, false)
after_incremental runner start (exited code lines) =
    if code == 0 then (exited code lines, false) else read_full runner start

-- `_read_window`
pub read_window : (Request → Reply) → Option String → ℕ → Reply × Bool
read_window runner none start = read_full runner start
read_window runner (some cursor) start =
    if str_eq cursor ""
    then read_full runner start
    else after_incremental runner start (runner (after_cursor cursor))

pub data ErrorCode : Type 0 where
  not_installed timeout no_permission : ErrorCode

-- The counts, the error code, and the state file afterwards.
pub record Collected : Type 0 where
  pub events : List (EventKind × EventCount)
  pub error : Option ErrorCode
  pub file : Option Saved

-- The saved cursor, if it was saved for the same kinds.
pub usable_cursor : Saved → List EventKind → Option String
usable_cursor saved kinds = elim saved.kinds [
  | none ↦ none
  | some old ↦ if same_kinds old kinds then saved.cursor else none
]

-- What follows a read with exit code 0.
pub keep_read :
    Option Saved → ℕ → List EventKind → Bool → Option String → Bool → List Line → Collected
keep_read file now enabled writable cursor full lines =
    let start : Stamps = if full then no_stamps else (load file).events in
    let (stamps, last) = scan enabled lines start (if full then none else cursor) in
    let kept : Stamps = λ k. recent now (stamps k) in
    record {
      events = counts kept now enabled;
      error = none;
      file =
          if writable
          then some (record { cursor = last; kinds = some (normalized enabled); events = kept })
          else file;
    }

abbrev pub give_up : Option Saved → ℕ → List EventKind → ErrorCode → Collected
give_up file now enabled code = record {
  events = counts (load file).events now enabled;
  error = some code;
  file = file;
}

abbrev pub after_reply :
    Option Saved → ℕ → List EventKind → Bool → Option String → Reply → Bool → Collected
after_reply file now enabled writable cursor not_found full = give_up file now enabled not_installed
after_reply file now enabled writable cursor timed_out full = give_up file now enabled timeout
after_reply file now enabled writable cursor (exited code lines) full =
    if code == 0
    then keep_read file now enabled writable cursor full lines
    else give_up file now enabled no_permission

pub collect_events : Option Saved → ℕ → List EventKind → (Request → Reply) → Bool → Collected
collect_events file now enabled runner writable =
    let cursor = usable_cursor (load file) (normalized enabled) in
    let (reply, full) = read_window runner cursor ((now - window) / second) in
    after_reply file now enabled writable cursor reply full

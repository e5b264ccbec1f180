-- ===== src/Collector/Run.antt =====
-- src/terminal_status_panel/collector/run.py: one run of `status-collect`. A source is given by what
-- it returns, `none` where it raises; the VRRP source is collector/vrrp.py's.
pub mod Errors
mod Tests
use terminal_status_panel.Base.{
  ℕ, Bool, true, false, not, ◌&&◌, Option, none, some, List, [], ◌∷◌, String, is_some, is_empty,
  mem, if◌then◌else◌,
}
use terminal_status_panel.Base.Dict.{lookup, update}
use terminal_status_panel.StateFile.{
  ℤ, pos, VrrpState, ApacheState, UpdateCounts, EventCount, HostState, Parsed, ok, unknown_schema,
  malformed, Json, from_dict, Floats,
}
use terminal_status_panel.Collector.Vrrp.{Dump, absent, collect_vrrp, remove_dump}

-- What a source returns: its block, if any, and its error code.
abbrev pub Answer : Type 0 → Type 0
Answer A = Option A × Option String

-- `_guarded`, for what the source returned.
pub guarded : {A : Type 0} → Option (Answer A) → Answer A
guarded none = (none, some "internal")
guarded (some answer) = answer

-- The error codes of the run.
abbrev pub Errors : Type 0
Errors = List (String × Option String)

abbrev pub no_errors : Errors
no_errors = ("vrrp", none) ∷ ("apache", none) ∷ ("updates", none) ∷ ("events", none) ∷ []

abbrev pub or_cleanup : Option String → Option String → Option String
or_cleanup none code = code
or_cleanup (some failure) code = some "cleanup"

module _ {Real : Type 0} where
  abbrev pub accepted : Parsed (HostState Real) → Option (HostState Real)
  accepted (ok s) = some s
  accepted unknown_schema = none
  accepted malformed = none

  -- `_previous`, of what the state file holds, if it is there and JSON.
  pub previous : Floats Real → Option (Json Real) → Option (HostState Real)
  previous floats none = none
  previous floats (some v) = accepted (from_dict floats v)

  abbrev pub updates_of : Option (HostState Real) → Option (UpdateCounts Real)
  updates_of none = none
  updates_of (some s) = s.updates

-- The configuration that a run reads, and the sources' ways to answer.
pub record Sources (Real : Type 0) : Type 0 where
  pub enabled : List String
  pub url : String
  pub apache : Option (Answer (ApacheState Real))
  pub updates : Option (UpdateCounts Real) → Option (Answer (UpdateCounts Real))
  pub events : Option (Answer (List (String × EventCount Real)))
  pub version : String
  pub now : Real

module _ {Real : Type 0} (floats : Floats Real) (as_int : Real → Option ℕ) (s : Sources Real) where
  abbrev pub vrrp_answer : Bool → Dump Real → Answer VrrpState × Dump Real
  vrrp_answer stuck dump =
      let (answer, dump') = collect_vrrp as_int stuck dump in
      if mem "vrrp" s.enabled then (guarded answer, dump') else ((none, none), dump)

  abbrev apache_answer : Answer (ApacheState Real)
  apache_answer =
      if mem "apache" s.enabled && not (is_empty s.url) then guarded s.apache else (none, none)

  abbrev or_nothing : Option (List (String × EventCount Real)) → List (String × EventCount Real)
  or_nothing none = []
  or_nothing (some events) = events

  -- `run`, up to the writing of the state, and the dump behind it. `stuck` is whether the dump
  -- cannot be deleted while vrrp.py tries, `stuck_after` at the end of the run.
  pub run : Bool → Bool → Dump Real → Option (Json Real) → HostState Real × Dump Real
  run stuck stuck_after dump file =
      let ((vrrp, vrrp_code), dump') = vrrp_answer stuck dump in
      let (apache, apache_code) = apache_answer in
      let (updates, updates_code) = guarded (s.updates (updates_of (previous floats file))) in
      let (events, events_code) = guarded s.events in
      let (failure, dump'') = remove_dump stuck_after dump' in
      (
        record {
          written_at = s.now;
          collector = s.version;
          vrrp = vrrp;
          apache = apache;
          updates = updates;
          events = or_nothing events;
          events_window_s = pos 43200;
          errors =
              ("vrrp", or_cleanup failure vrrp_code)
              ∷ ("apache", apache_code)
              ∷ ("updates", updates_code)
              ∷ ("events", events_code)
              ∷ [];
        },
        dump'',
      )

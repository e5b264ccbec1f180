-- ===== src/StateFile.antt =====
-- src/terminal_status_panel/model/host.py: the file that `status-collect` writes and the panel reads.
-- `Real` is Python's float: `is_finite` and `is_one` are `math.isfinite` and `== 1`, and `of_int` is
-- `float` of an integer, `none` where it overflows.
pub mod RoundTrip
pub mod Reading
pub mod Newer
mod Tests
use terminal_status_panel.Base.{
  ℕ, ◌==◌, Bool, true, false, not, ◌&&◌, ◌||◌, Option, none, some, List, [], ◌∷◌, map, String,
  str_eq, is_some, is_empty, if◌then◌else◌,
}

pub data ℤ : Type 0 where
  pos negsuc : ℕ → ℤ

pub data Num (Real : Type 0) : Type 0 where
  whole : ℤ → Num Real
  real : Real → Num Real

mutual
  pub data Json (Real : Type 0) : Type 0 where
    null : Json Real
    bool : Bool → Json Real
    number : Num Real → Json Real
    text : String → Json Real
    array : Items Real → Json Real
    object : Fields Real → Json Real

  pub data Items (Real : Type 0) : Type 0 where
    no_item : Items Real
    item : Json Real → Items Real → Items Real

  pub data Fields (Real : Type 0) : Type 0 where
    no_field : Fields Real
    field : String → Json Real → Fields Real → Fields Real

-- What reading a part of the file comes to. Every exception but `UnknownSchemaError` is
-- `malformed`.
pub data Parsed (A : Type 0) : Type 0 where
  ok : A → Parsed A
  unknown_schema : Parsed A
  malformed : Parsed A

abbrev pub and_then : {A B : Type 0} → Parsed A → (A → Parsed B) → Parsed B
and_then (ok a) next = next a
and_then unknown_schema next = unknown_schema
and_then malformed next = malformed

pub record VrrpInstance : Type 0 where
  pub name : String
  pub state : String
  pub base_priority : Option ℤ
  pub effective_priority : Option ℤ
  pub master_priority : Option ℤ

pub record VrrpState : Type 0 where
  pub source : String
  pub instances : List VrrpInstance

pub record ApacheState (Real : Type 0) : Type 0 where
  pub window_s : Num Real
  pub requests_per_s : Option (Num Real)
  pub slots_busy : Option (Num Real)
  pub workers_busy : Option (Num Real)
  pub slots_finishing : Option ℤ

pub record UpdateCounts (Real : Type 0) : Type 0 where
  pub checked_at : Num Real
  pub available : ℤ
  pub security : ℤ
  pub source : String

pub record EventCount (Real : Type 0) : Type 0 where
  pub count : ℤ
  pub last : Option (Num Real)

pub record HostState (Real : Type 0) : Type 0 where
  pub written_at : Real
  pub collector : String
  pub vrrp : Option VrrpState
  pub apache : Option (ApacheState Real)
  pub updates : Option (UpdateCounts Real)
  pub events : List (String × EventCount Real)
  pub events_window_s : ℤ
  pub errors : List (String × Option String)

-- `holds`
pub holds : VrrpInstance → Bool
holds v = str_eq v.state "MASTER"

module _ {Real : Type 0} where
  -- `d.get(k)`
  abbrev pub get : String → Fields Real → Option (Json Real)
  get k no_field = none
  get k (field j v fs) = if str_eq j k then some v else get k fs

  -- `asdict`, of a value that may be `None`.
  abbrev pub optional : {A : Type 0} → (A → Json Real) → Option A → Json Real
  optional f none = null
  optional f (some a) = f a

  abbrev pub whole_number : ℤ → Json Real
  whole_number n = number (whole n)

  pub vrrp_instance_dict : VrrpInstance → Json Real
  vrrp_instance_dict v = object (
      field "name" (text v.name) (
        field "state" (text v.state) (
          field "base_priority" (optional whole_number v.base_priority) (
            field "effective_priority" (optional whole_number v.effective_priority)
              (field "master_priority" (optional whole_number v.master_priority) no_field)))))

  pub instance_dicts : List VrrpInstance → Items Real
  instance_dicts [] = no_item
  instance_dicts (v ∷ instances) = item (vrrp_instance_dict v) (instance_dicts instances)

  pub vrrp_dict : VrrpState → Json Real
  vrrp_dict v = object (
      field "source" (text v.source)
        (field "instances" (array (instance_dicts v.instances)) no_field))

  pub apache_dict : ApacheState Real → Json Real
  apache_dict a = object (
      field "window_s" (number a.window_s) (
        field "requests_per_s" (optional number a.requests_per_s) (
          field "slots_busy" (optional number a.slots_busy) (
            field "workers_busy" (optional number a.workers_busy)
              (field "slots_finishing" (optional whole_number a.slots_finishing) no_field)))))

  pub updates_dict : UpdateCounts Real → Json Real
  updates_dict u = object (
      field "checked_at" (number u.checked_at) (
        field "available" (whole_number u.available)
          (field "security" (whole_number u.security) (field "source" (text u.source) no_field))))

  pub event_dict : EventCount Real → Json Real
  event_dict e =
      object (field "count" (whole_number e.count) (field "last" (optional number e.last) no_field))

  pub event_dicts : List (String × EventCount Real) → Fields Real
  event_dicts [] = no_field
  event_dicts ((name, e) ∷ events) = field name (event_dict e) (event_dicts events)

  pub error_dicts : List (String × Option String) → Fields Real
  error_dicts [] = no_field
  error_dicts ((name, code) ∷ errors) = field name (optional text code) (error_dicts errors)

  -- `to_dict`
  pub to_dict : HostState Real → Json Real
  to_dict s = object (
      field "written_at" (number (real s.written_at)) (
        field "collector" (text s.collector) (
          field "vrrp" (optional vrrp_dict s.vrrp) (
            field "apache" (optional apache_dict s.apache) (
              field "updates" (optional updates_dict s.updates) (
                field "events" (object (event_dicts s.events)) (
                  field "events_window_s" (whole_number s.events_window_s) (
                    field "errors" (object (error_dicts s.errors))
                      (field "schema" (whole_number (pos 1)) no_field)))))))))

  -- `_check` and the field's default: a text, and an integer or `None`.
  pub read_text : Option (Json Real) → Parsed String
  read_text (some (text s)) = ok s
  read_text _ = malformed

  pub read_int : Option (Json Real) → Parsed ℤ
  read_int (some (number (whole n))) = ok n
  read_int _ = malformed

  pub read_optional_int : Option (Json Real) → Parsed (Option ℤ)
  read_optional_int none = ok none
  read_optional_int (some null) = ok none
  read_optional_int (some (number (whole n))) = ok (some n)
  read_optional_int _ = malformed

  abbrev pub or_default : Option (Json Real) → Json Real → Option (Json Real)
  or_default none default = some default
  or_default (some v) default = some v

  -- `_entry(VrrpInstance, value)`
  pub read_instance : Json Real → Parsed VrrpInstance
  read_instance (object fs) = and_then (read_text (get "name" fs)) (λ name.
      and_then (read_text (get "state" fs)) (λ state.
        and_then (read_optional_int (get "base_priority" fs)) (λ base.
          and_then (read_optional_int (get "effective_priority" fs)) (λ effective.
            and_then (read_optional_int (get "master_priority" fs)) (λ master. ok (record {
              name = name;
              state = state;
              base_priority = base;
              effective_priority = effective;
              master_priority = master;
            }))))))
  read_instance _ = malformed

  pub read_instances : Items Real → Parsed (List VrrpInstance)
  read_instances no_item = ok []
  read_instances (item v more) =
      let rest = read_instances more in
      and_then (read_instance v)
        (λ instance'. and_then rest (λ instances. ok (instance' ∷ instances)))

  abbrev pub read_list : Option (Json Real) → Parsed (List VrrpInstance)
  read_list none = ok []
  read_list (some (array items)) = read_instances items
  read_list (some _) = malformed

  -- `_vrrp`
  pub read_vrrp : Json Real → Parsed VrrpState
  read_vrrp (object fs) = and_then (read_list (get "instances" fs)) (λ instances.
      and_then (read_text (get "source" fs))
        (λ source. ok (record { source = source; instances = instances })))
  read_vrrp _ = malformed

  -- `x if x is not None else None`, of a block.
  abbrev pub read_block :
      {A : Type 0} → (Json Real → Parsed A) → Option (Json Real) → Parsed (Option A)
  read_block read none = ok none
  read_block read (some null) = ok none
  read_block read (some v) = and_then (read v) (λ a. ok (some a))

  pub read_errors : Fields Real → Parsed (List (String × Option String))
  read_errors no_field = ok []
  read_errors (field name null more) =
      and_then (read_errors more) (λ errors. ok ((name, none) ∷ errors))
  read_errors (field name (text code) more) =
      and_then (read_errors more) (λ errors. ok ((name, some code) ∷ errors))
  read_errors (field name _ more) = malformed

-- Python's operations on floats.
pub record Floats (Real : Type 0) : Type 0 where
  pub is_finite : Real → Bool
  pub is_one : Real → Bool
  pub is_zero : Real → Bool
  pub of_int : ℤ → Option Real

module _ {Real : Type 0} (floats : Floats Real) where
  -- `_is(value, float)`, of a number: `_finite`.
  pub finite : Num Real → Bool
  finite (whole n) = is_some (floats.of_int n)
  finite (real f) = floats.is_finite f

  pub read_num : Option (Json Real) → Parsed (Num Real)
  read_num (some (number n)) = if finite n then ok n else malformed
  read_num _ = malformed

  pub read_optional_num : Option (Json Real) → Parsed (Option (Num Real))
  read_optional_num none = ok none
  read_optional_num (some null) = ok none
  read_optional_num (some (number n)) = if finite n then ok (some n) else malformed
  read_optional_num _ = malformed

  -- `_entry(ApacheState, value)`
  pub read_apache : Json Real → Parsed (ApacheState Real)
  read_apache (object fs) = and_then (read_num (get "window_s" fs)) (λ window_s.
      and_then (read_optional_num (get "requests_per_s" fs)) (λ requests.
        and_then (read_optional_num (get "slots_busy" fs)) (λ slots.
          and_then (read_optional_num (get "workers_busy" fs)) (λ workers.
            and_then (read_optional_int (get "slots_finishing" fs)) (λ finishing. ok (record {
              window_s = window_s;
              requests_per_s = requests;
              slots_busy = slots;
              workers_busy = workers;
              slots_finishing = finishing;
            }))))))
  read_apache _ = malformed

  -- `_entry(UpdateCounts, value)`
  pub read_updates : Json Real → Parsed (UpdateCounts Real)
  read_updates (object fs) = and_then (read_num (get "checked_at" fs)) (λ checked_at.
      and_then (read_int (get "available" fs)) (λ available.
        and_then (read_int (get "security" fs)) (λ security.
          and_then (read_text (get "source" fs)) (λ source. ok (record {
            checked_at = checked_at;
            available = available;
            security = security;
            source = source;
          })))))
  read_updates _ = malformed

  -- `_entry(EventCount, value)`
  pub read_event : Json Real → Parsed (EventCount Real)
  read_event (object fs) = and_then (read_int (get "count" fs)) (λ count.
      and_then (read_optional_num (get "last" fs))
        (λ last. ok (record { count = count; last = last })))
  read_event _ = malformed

  pub read_events : Fields Real → Parsed (List (String × EventCount Real))
  read_events no_field = ok []
  read_events (field name v more) =
      let rest = read_events more in
      and_then (read_event v) (λ e. and_then rest (λ events. ok ((name, e) ∷ events)))

  -- `data.get("schema") == SCHEMA_VERSION`, for which `True` and `1.0` are 1.
  pub is_schema : Option (Json Real) → Bool
  is_schema (some (bool b)) = b
  is_schema (some (number (whole (pos n)))) = n == 1
  is_schema (some (number (real f))) = floats.is_one f
  is_schema _ = false

  -- `v or {}`, which must be an object.
  pub read_object : Option (Json Real) → Parsed (Fields Real)
  read_object none = ok no_field
  read_object (some null) = ok no_field
  read_object (some (bool b)) = if b then malformed else ok no_field
  read_object (some (number (whole (pos n)))) = if n == 0 then ok no_field else malformed
  read_object (some (number (whole (negsuc n)))) = malformed
  read_object (some (number (real f))) = if floats.is_zero f then ok no_field else malformed
  read_object (some (text s)) = if is_empty s then ok no_field else malformed
  read_object (some (array no_item)) = ok no_field
  read_object (some (array (item v more))) = malformed
  read_object (some (object fs)) = ok fs

  -- `float(written_at)`
  pub read_time : Option (Json Real) → Parsed Real
  read_time (some (number (real f))) = if floats.is_finite f then ok f else malformed
  read_time (some (number (whole n))) = elim (floats.of_int n) [ none ↦ malformed | some f ↦ ok f ]
  read_time _ = malformed

  pub read_state : Fields Real → Parsed (HostState Real)
  read_state fs = and_then (read_time (get "written_at" fs)) (λ written_at.
      and_then (read_text (or_default (get "collector" fs) (text ""))) (λ collector.
        and_then (read_int (or_default (get "events_window_s" fs) (whole_number (pos 43200))))
          (λ window. and_then (read_object (get "events" fs)) (λ event_fields.
            and_then (read_object (get "errors" fs)) (λ error_fields.
              and_then (read_errors error_fields) (λ errors.
                and_then (read_block read_vrrp (get "vrrp" fs)) (λ vrrp.
                  and_then (read_block read_apache (get "apache" fs)) (λ apache.
                    and_then (read_block read_updates (get "updates" fs)) (λ updates.
                      and_then (read_events event_fields) (λ events. ok (record {
                        written_at = written_at;
                        collector = collector;
                        vrrp = vrrp;
                        apache = apache;
                        updates = updates;
                        events = events;
                        events_window_s = window;
                        errors = errors;
                      })))))))))))

  -- `from_dict`
  pub from_dict : Json Real → Parsed (HostState Real)
  from_dict (object fs) = if is_schema (get "schema" fs) then read_state fs else unknown_schema
  from_dict _ = malformed

-- How the opening, reading and parsing of the file ends.
pub data File (Real : Type 0) : Type 0 where
  missing : File Real
  unreadable : File Real
  holding : Json Real → File Real

pub record HostStateRead (Real : Type 0) : Type 0 where
  pub state : Option (HostState Real)
  pub age_s : Option Real
  pub problem : Option String

module _ {Real : Type 0} (floats : Floats Real) (since : Real → Real) where
  abbrev pub problem : String → HostStateRead Real
  problem what = record { state = none; age_s = none; problem = some what }

  abbrev pub read_of : Parsed (HostState Real) → HostStateRead Real
  read_of (ok s) = record { state = some s; age_s = some (since s.written_at); problem = none }
  read_of unknown_schema = problem "unknown schema"
  read_of malformed = problem "unreadable"

  -- `read_host_state`; `since` is the time from then to now, at least 0.
  pub read_host_state : File Real → HostStateRead Real
  read_host_state missing = problem "missing"
  read_host_state unreadable = problem "unreadable"
  read_host_state (holding json) = read_of (from_dict floats json)

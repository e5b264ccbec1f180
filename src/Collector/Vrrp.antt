-- ===== src/Collector/Vrrp.antt =====
-- src/terminal_status_panel/collector/vrrp.py: the instances in keepalived's dump, and the dump's
-- removal. `as_int` is the small integer that a float is equal to, if it is.
pub mod Removal
mod Tests
use terminal_status_panel.Base.{
  ℕ, ◌==◌, Bool, true, false, not, Option, none, some, List, [], ◌∷◌, String, or_else,
  if◌then◌else◌,
}
use terminal_status_panel.StateFile.{
  ℤ, pos, negsuc, Num, whole, real, Json, null, bool, number, text, array, object, Items, no_item,
  item, Fields, no_field, get, VrrpInstance, VrrpState,
}

-- How reading the dump ends: with a value, a `ValueError`, or a `TypeError`, which a list or an
-- object in place of the state's number raises.
pub data Shaped (A : Type 0) : Type 0 where
  shaped : A → Shaped A
  value_error : Shaped A
  type_error : Shaped A

-- `_STATES`, for a key that is equal to the number.
abbrev state_name : ℕ → String
state_name n =
    if n == 0
    then "INIT"
    else if n == 1
    then "BACKUP"
    else if n == 2
    then "MASTER"
    else if n == 3
    then "FAULT"
    else if n == 97
    then "DELETED"
    else if n == 98
    then "STOP"
    else "UNKNOWN"

module _ {Real : Type 0} where
  -- `_int`
  pub int_of : Option (Json Real) → Option ℤ
  int_of (some (number (whole n))) = some n
  int_of _ = none

  module _ (as_int : Real → Option ℕ) where
    -- `_STATES.get(value, "UNKNOWN")`, for which `True` and `1.0` are 1.
    pub state_of : Option (Json Real) → Shaped String
    state_of none = shaped "UNKNOWN"
    state_of (some null) = shaped "UNKNOWN"
    state_of (some (bool b)) = shaped (if b then "BACKUP" else "INIT")
    state_of (some (number (whole (pos n)))) = shaped (state_name n)
    state_of (some (number (whole (negsuc n)))) = shaped "UNKNOWN"
    state_of (some (number (real f))) =
        shaped (elim (as_int f) [ none ↦ "UNKNOWN" | some n ↦ state_name n ])
    state_of (some (text s)) = shaped "UNKNOWN"
    state_of (some (array items)) = type_error
    state_of (some (object fs)) = type_error

    abbrev named : Fields Real → String → Shaped String → Shaped (Option VrrpInstance)
    named fs name (shaped state) = shaped (
        some (record {
          name = name;
          state = state;
          base_priority = int_of (get "base_priority" fs);
          effective_priority = int_of (get "effective_priority" fs);
          master_priority = int_of (get "master_priority" fs);
        }))
    named fs name value_error = value_error
    named fs name type_error = type_error

    abbrev of_data : Option (Json Real) → Shaped (Option VrrpInstance)
    of_data none = shaped none
    of_data (some (object fs)) = elim (get "iname" fs) [
      | none ↦ shaped none
      | some v ↦ elim v [
        | text name ↦ named fs name (state_of (get "state" fs))
        | null ↦ shaped none
        | bool b ↦ shaped none
        | number n ↦ shaped none
        | array items ↦ shaped none
        | object more ↦ shaped none
      ]
    ]
    of_data (some _) = value_error

    -- A round of the loop over the entries: the instance, if the entry names one.
    pub parse_entry : Json Real → Shaped (Option VrrpInstance)
    parse_entry (object fs) = of_data (get "data" fs)
    parse_entry _ = value_error

    abbrev pub add_instance :
        Shaped (Option VrrpInstance) → Shaped (List VrrpInstance) → Shaped (List VrrpInstance)
    add_instance value_error rest = value_error
    add_instance type_error rest = type_error
    add_instance (shaped found) (shaped instances) =
        shaped (elim found [ none ↦ instances | some v ↦ v ∷ instances ])
    add_instance (shaped found) value_error = value_error
    add_instance (shaped found) type_error = type_error

    pub parse_entries : Items Real → Shaped (List VrrpInstance)
    parse_entries no_item = shaped []
    parse_entries (item entry more) = add_instance (parse_entry entry) (parse_entries more)

    abbrev entries_of : Json Real → Option (Json Real)
    entries_of (object fs) = get "vrrp" fs
    entries_of v = some v

    abbrev from_entries : Option (Json Real) → Shaped (List VrrpInstance)
    from_entries (some (array items)) = parse_entries items
    from_entries _ = value_error

    -- `parse_keepalived_json`, of what `json.loads` gives.
    pub parse_keepalived : Json Real → Shaped (List VrrpInstance)
    parse_keepalived v = from_entries (entries_of v)

-- The dump at its path: not there, not to be opened, no text, text that is no JSON, text that is nested
-- too deep for `json.loads`, which raises a `RecursionError` for it, or a value.
pub data Dump (Real : Type 0) : Type 0 where
  absent : Dump Real
  refused : Dump Real
  not_text : Dump Real
  not_json : Dump Real
  too_deep : Dump Real
  holding : Json Real → Dump Real

module _ {Real : Type 0} where
  -- `remove_dump`, and the dump behind it. `stuck` is whether `unlink` raises an `OSError`.
  pub remove_dump : Bool → Dump Real → Option String × Dump Real
  remove_dump stuck dump = if stuck then (some "cleanup", dump) else (none, absent)

  -- `return state, remove_dump(dump_path) or code`
  abbrev pub removed :
      Bool
      → Dump Real
      → Option VrrpState
      → Option String
      → Option (Option VrrpState × Option String) × Dump Real
  removed stuck dump state code =
      let (failure, dump') = remove_dump stuck dump in (some (state, or_else failure code), dump')

  abbrev pub judged :
      Bool
      → Dump Real
      → Shaped (List VrrpInstance)
      → Option (Option VrrpState × Option String) × Dump Real
  judged stuck dump (shaped instances) =
      removed stuck dump (some (record { source = "keepalived-json"; instances = instances })) none
  judged stuck dump value_error = removed stuck dump none (some "parse")
  judged stuck dump type_error = (none, dump)

  -- `collect_vrrp`: what it returns, `none` where it raises, and the dump behind it.
  pub collect_vrrp :
      (Real → Option ℕ) → Bool → Dump Real → Option (Option VrrpState × Option String) × Dump Real
  collect_vrrp as_int stuck absent = (some (none, some "not-installed"), absent)
  collect_vrrp as_int stuck refused = removed stuck refused none (some "no-permission")
  collect_vrrp as_int stuck not_text = removed stuck not_text none (some "parse")
  collect_vrrp as_int stuck not_json = removed stuck not_json none (some "parse")
  collect_vrrp as_int stuck too_deep = (none, too_deep)
  collect_vrrp as_int stuck (holding v) = judged stuck (holding v) (parse_keepalived as_int v)

-- ===== src/Config.antt =====
-- src/terminal_status_panel/config.py: the readers of single values. `Real` is Python's float. A
-- problem is its key, what was found and the reason. Of `repr` it is modelled whether it raises:
-- `prints` is whether Python prints an integer, which it does up to 4300 digits. What was used is one
-- of the code's own defaults, and not modelled.
pub mod Reading
mod Tests
use terminal_status_panel.Base.{
  ℕ, Bool, true, false, not, ◌&&◌, ◌||◌, Option, none, some, List, [], ◌∷◌, ◌++◌, String, ◌<>◌,
  is_empty, strip, after_last, lower_is, mem, str_eq, if◌then◌else◌,
}
use terminal_status_panel.StateFile.{ℤ}

mutual
  -- A value of the parsed TOML; `moment` is a date or a time.
  pub data Value (Real : Type 0) : Type 0 where
    boolean : Bool → Value Real
    integer_value : ℤ → Value Real
    float_value : Real → Value Real
    string : String → Value Real
    list : Values Real → Value Real
    table : Table Real → Value Real
    moment : Value Real

  pub data Values (Real : Type 0) : Type 0 where
    no_value : Values Real
    value : Value Real → Values Real → Values Real

  pub data Table (Real : Type 0) : Type 0 where
    no_key : Table Real
    key : String → Value Real → Table Real → Table Real

-- Whether `repr` of a value returns, and does not raise the `ValueError` of too long an integer.
unfoldable mutual
  pub shows : {Real : Type 0} → (ℤ → Bool) → Value Real → Bool
  shows prints (boolean b) = true
  shows prints (integer_value n) = prints n
  shows prints (float_value f) = true
  shows prints (string s) = true
  shows prints (list entries) = shows_all prints entries
  shows prints (table entries) = shows_table prints entries
  shows prints moment = true

  pub shows_all : {Real : Type 0} → (ℤ → Bool) → Values Real → Bool
  shows_all prints no_value = true
  shows_all prints (value v more) = shows prints v && shows_all prints more

  pub shows_table : {Real : Type 0} → (ℤ → Bool) → Table Real → Bool
  shows_table prints no_key = true
  shows_table prints (key name v more) = shows prints v && shows_table prints more

pub record ConfigProblem (Real : Type 0) : Type 0 where
  pub key_name : String
  pub found : Value Real
  pub reason : String

-- What an accessor comes to: a value and the problems noted up to then, or an exception.
pub data Read (Real A : Type 0) : Type 0 where
  gives : A → List (ConfigProblem Real) → Read Real A
  raises : Read Real A

-- Python's conversions, `none` for what they raise: `float(n)` an `OverflowError`, `float(s)` and
-- `int(s)` a `ValueError`, and `int(f)` an `OverflowError` for an infinity.
pub record Numbers (Real : Type 0) : Type 0 where
  pub is_finite : Real → Bool
  pub is_nan : Real → Bool
  pub real_less : Real → Real → Bool
  pub less : ℤ → ℤ → Bool
  pub float_of_int : ℤ → Option Real
  pub float_of_text : String → Option Real
  pub int_of_float : Real → Option ℤ
  pub int_of_text : String → Option ℤ

abbrev pub below : {A : Type 0} → (A → A → Bool) → A → Option A → Bool
below less n none = false
below less n (some minimum) = less n minimum

module _ {Real : Type 0} where
  -- `section.get(name)`
  abbrev pub get : String → Table Real → Option (Value Real)
  get name no_key = none
  get name (key j v more) = if str_eq j name then some v else get name more

  -- The value that a key's path has in its section.
  abbrev pub raw_of : String → Table Real → Option (Value Real)
  raw_of path section = get (after_last "." path) section

module _ {Real : Type 0} (prints : ℤ → Bool) where
  -- `_note`, and the default; or what `repr` raises.
  abbrev pub note :
      {A : Type 0} → String → Value Real → A → String → List (ConfigProblem Real) → Read Real A
  note name raw default reason problems =
      if shows prints raw
      then gives default
          (problems ++ (record { key_name = name; found = raw; reason = reason } ∷ []))
      else raises

  -- `flag`
  pub flag_of : String → Value Real → Bool → List (ConfigProblem Real) → Read Real Bool
  flag_of path (boolean b) default problems = gives b problems
  flag_of path (string s) default problems =
      let word : String = strip s in
      if lower_is word "true" || lower_is word "yes" || lower_is word "on" || lower_is word "1"
      then gives true problems
      else if lower_is word "false"
          || lower_is word "no"
          || lower_is word "off"
          || lower_is word "0"
      then gives false problems
      else note path (string s) default "expected true or false" problems
  flag_of path raw default problems = note path raw default "expected true or false" problems

  -- `text`
  pub text_of : String → Option (Value Real) → String → List (ConfigProblem Real) → Read Real String
  text_of path none default problems = gives default problems
  text_of path (some (string s)) default problems = gives s problems
  text_of path (some raw) default problems = note path raw default "expected a string" problems

  -- The loop of `patterns`, with what it kept and noted.
  pub keep_patterns :
      String → Values Real → List String → List (ConfigProblem Real) → Read Real (List String)
  keep_patterns path no_value kept problems = gives kept problems
  keep_patterns path (value (string s) more) kept problems =
      let dropped : ConfigProblem Real = record {
        key_name = path;
        found = string s;
        reason = "expected a non-empty string";
      } in
      keep_patterns path more (if is_empty (strip s) then kept else kept ++ (s ∷ []))
        (if is_empty (strip s) then problems ++ (dropped ∷ []) else problems)
  keep_patterns path (value raw more) kept problems =
      let rest = keep_patterns path more kept (
        problems
        ++ (record { key_name = path; found = raw; reason = "expected a non-empty string" }
            ∷ [])) in
      if shows prints raw then rest else raises

  -- `patterns`
  pub patterns_of :
      String
      → Option (Value Real)
      → List String
      → List (ConfigProblem Real)
      → Read Real (List String)
  patterns_of path none default problems = gives default problems
  patterns_of path (some (string s)) default problems =
      keep_patterns path (value (string s) no_value) [] problems
  patterns_of path (some (list entries)) default problems = keep_patterns path entries [] problems
  patterns_of path (some raw) default problems =
      note path raw default "expected a list of strings" problems

  -- The loop of `members`.
  pub keep_members :
      String
      → List String
      → Values Real
      → List String
      → List (ConfigProblem Real)
      → Read Real (List String)
  keep_members path allowed no_value kept problems = gives kept problems
  keep_members path allowed (value (string s) more) kept problems =
      let dropped : ConfigProblem Real = record {
        key_name = path;
        found = string s;
        reason = "expected one of";
      } in
      keep_members path allowed more
        (if mem s allowed && not (mem s kept) then kept ++ (s ∷ []) else kept)
        (if mem s allowed then problems else problems ++ (dropped ∷ []))
  keep_members path allowed (value raw more) kept problems =
      let rest =
        keep_members path allowed more kept (
          problems ++ (record { key_name = path; found = raw; reason = "expected one of" } ∷ [])) in
      if shows prints raw then rest else raises

  -- `members`
  pub members_of :
      String
      → List String
      → Option (Value Real)
      → List String
      → List (ConfigProblem Real)
      → Read Real (List String)
  members_of path allowed none default problems = gives default problems
  members_of path allowed (some (list entries)) default problems =
      keep_members path allowed entries [] problems
  members_of path allowed (some raw) default problems =
      note path raw default "expected a list of names" problems

  module _ (numbers : Numbers Real) where
    -- `number`, for the value of `float(raw)`.
    abbrev pub checked_number :
        String → Value Real → Real → Option Real → List (ConfigProblem Real) → Real → Read Real Real
    checked_number path raw default minimum problems n =
        if not (numbers.is_finite n)
        then note path raw default "not a finite number" problems
        else if below numbers.real_less n minimum
        then note path raw default "must be at least the minimum" problems
        else gives n problems

    abbrev pub or_raise : {A : Type 0} → Option Real → (Real → Read Real A) → Read Real A
    or_raise none next = raises
    or_raise (some n) next = next n

    abbrev pub or_note : {A B : Type 0} → Option B → Read Real A → (B → Read Real A) → Read Real A
    or_note none noted next = noted
    or_note (some n) noted next = next n

    pub number :
        String
        → Option (Value Real)
        → Real
        → Option Real
        → List (ConfigProblem Real)
        → Read Real Real
    number path none default minimum problems = gives default problems
    number path (some (boolean b)) default minimum problems =
        note path (boolean b) default "expected a number, found a boolean" problems
    number path (some (integer_value n)) default minimum problems =
        or_raise (numbers.float_of_int n)
          (checked_number path (integer_value n) default minimum problems)
    number path (some (float_value f)) default minimum problems =
        checked_number path (float_value f) default minimum problems f
    number path (some (string s)) default minimum problems =
        or_note (numbers.float_of_text s)
          (note path (string s) default "expected a number" problems)
          (checked_number path (string s) default minimum problems)
    number path (some raw) default minimum problems =
        note path raw default "expected a number" problems

    -- `integer`, for the value of `int(raw)`.
    abbrev pub checked_integer :
        String → Value Real → ℤ → Option ℤ → Option ℤ → List (ConfigProblem Real) → ℤ → Read Real ℤ
    checked_integer path raw default minimum none problems n =
        if below numbers.less n minimum
        then note path raw default "must be at least the minimum" problems
        else gives n problems
    checked_integer path raw default minimum (some clamp_to) problems n =
        if numbers.less n clamp_to
        then gives clamp_to problems
        else if below numbers.less n minimum
        then note path raw default "must be at least the minimum" problems
        else gives n problems

    abbrev pub int_or_raise : Option ℤ → (ℤ → Read Real ℤ) → Read Real ℤ
    int_or_raise none next = raises
    int_or_raise (some n) next = next n

    pub integer :
        String
        → Option (Value Real)
        → ℤ
        → Option ℤ
        → Option ℤ
        → List (ConfigProblem Real)
        → Read Real ℤ
    integer path none default minimum clamp_to problems = gives default problems
    integer path (some (boolean b)) default minimum clamp_to problems =
        note path (boolean b) default "expected a whole number, found a boolean" problems
    integer path (some (integer_value n)) default minimum clamp_to problems =
        checked_integer path (integer_value n) default minimum clamp_to problems n
    integer path (some (float_value f)) default minimum clamp_to problems =
        if numbers.is_nan f
        then note path (float_value f) default "expected a whole number" problems
        else int_or_raise (numbers.int_of_float f)
            (checked_integer path (float_value f) default minimum clamp_to problems)
    integer path (some (string s)) default minimum clamp_to problems =
        or_note (numbers.int_of_text s)
          (note path (string s) default "expected a whole number" problems)
          (checked_integer path (string s) default minimum clamp_to problems)
    integer path (some raw) default minimum clamp_to problems =
        note path raw default "expected a whole number" problems

-- ===== src/Config/Reading.antt =====
-- config.py: what `number` and `members` give for what stands in the file.
use terminal_status_panel.Base.{
  ◌≡◌, is_some, refl, ◌⊎◌, inl, inr, Bool, true, false, not, ◌&&◌, Option, none, some, List, [],
  ◌∷◌, ◌++◌, String, all, mem, distinct, Bool-cases,
}
use terminal_status_panel.StateFile.{ℤ}
use terminal_status_panel.Config.{
  Value, boolean, integer_value, float_value, string, list, table, moment, ConfigProblem, Read,
  shows, gives, raises, Numbers, below, note, checked_number, number, or_raise, or_note,
}

module _ {Real : Type 0} (prints : ℤ → Bool) (numbers : Numbers Real) where
  -- The number that the file has, as a float: a boolean is none.
  abbrev pub float_of : Value Real → Option Real
  float_of (boolean b) = none
  float_of (integer_value n) = numbers.float_of_int n
  float_of (float_value f) = some f
  float_of (string s) = numbers.float_of_text s
  float_of (list entries) = none
  float_of (table entries) = none
  float_of moment = none

  -- An integer that is too large for a float.
  abbrev pub overflows : Value Real → Bool
  overflows (integer_value n) = not (is_some (numbers.float_of_int n))
  overflows _ = false

  -- The number is finite and not below the minimum.
  abbrev pub is_usable : Option Real → Option Real → Bool
  is_usable minimum none = false
  is_usable minimum (some n) = numbers.is_finite n && not (below numbers.real_less n minimum)

  -- The default, with one problem that names the key and what was found; or an exception, where what
  -- was found cannot be printed.
  abbrev pub IsNoted :
      String → Value Real → Real → List (ConfigProblem Real) → Read Real Real → Type 0
  IsNoted path v default problems r =
      ((shows prints v ≡ false) × (r ≡ raises))
      ⊎ ((reason : String) × (shows prints v ≡ true)
          × (r
              ≡ gives default
                  (problems ++ (record { key_name = path; found = v; reason = reason } ∷ []))))

  -- The number of the file where it can be used, and a problem where it cannot.
  abbrev pub IsJudged :
      String → Value Real → Real → Option Real → List (ConfigProblem Real) → Read Real Real → Type 0
  IsJudged path v default minimum problems r =
      ((n : Real) × (float_of v ≡ some n)
        × (is_usable minimum (some n) ≡ true)
        × (r ≡ gives n problems))
      ⊎ (((is_usable minimum (float_of v) ≡ false)
            × (overflows v ≡ false)
            × IsNoted path v default problems r)
          ⊎ ((overflows v ≡ true) × (r ≡ raises)))

  note-IsNoted :
      (path : String) (v : Value Real) (default : Real) (reason : String)
      (problems : List (ConfigProblem Real))
      → IsNoted path v default problems (note prints path v default reason problems)
  note-IsNoted path v default reason problems = elim (Bool-cases (shows prints v)) [
    | inl e ↦ inr (reason, e, rw e refl)
    | inr e ↦ inl (e, rw e refl)
  ]

  checked-IsJudged :
      (path : String) (v : Value Real) (default : Real) (minimum : Option Real)
      (problems : List (ConfigProblem Real)) (n : Real)
      → float_of v ≡ some n
      → overflows v ≡ false
      → IsJudged path v default minimum problems
          (checked_number prints numbers path v default minimum problems n)
  checked-IsJudged path v default minimum problems n h small =
      elim (Bool-cases (numbers.is_finite n)) [
        | inr e ↦ inr (
            inl (
              rw (h, e) refl,
              small,
              rw e (note-IsNoted path v default "not a finite number" problems),
            ))
        | inl e ↦ elim (Bool-cases (below numbers.real_less n minimum)) [
          | inl low ↦ inr (
              inl (
                rw (h, e, low) refl,
                small,
                rw (e, low) (note-IsNoted path v default "must be at least the minimum" problems),
              ))
          | inr fits ↦ inl (n, h, rw (e, fits) refl, rw (e, fits) refl)
        ]
      ]

  integer-IsJudged :
      (path : String) (k : ℤ) (default : Real) (minimum : Option Real)
      (problems : List (ConfigProblem Real)) (o : Option Real)
      → numbers.float_of_int k ≡ o
      → IsJudged path (integer_value k) default minimum problems (
          or_raise prints numbers o
            (checked_number prints numbers path (integer_value k) default minimum problems))
  integer-IsJudged path k default minimum problems none h = inr (inr (rw h refl, refl))
  integer-IsJudged path k default minimum problems (some f) h =
      checked-IsJudged path (integer_value k) default minimum problems f h (rw h refl)

  text-IsJudged :
      (path s : String) (default : Real) (minimum : Option Real)
      (problems : List (ConfigProblem Real)) (o : Option Real)
      → numbers.float_of_text s ≡ o
      → IsJudged path (string s) default minimum problems (
          or_note prints numbers o
            (note prints path (string s) default "expected a number" problems)
            (checked_number prints numbers path (string s) default minimum problems))
  text-IsJudged path s default minimum problems none h =
      inr (inl (rw h refl, refl, note-IsNoted path (string s) default _ problems))
  text-IsJudged path s default minimum problems (some f) h =
      checked-IsJudged path (string s) default minimum problems f h refl

  -- An absent key has the default without a problem. For any other value `number` gives the number
  -- of the file without a problem, where it is finite and not below the minimum. Otherwise it gives the
  -- default, with one problem that has the key and the value; a boolean is never a number. It raises
  -- just for an integer that is too large for a float, and for a value with a problem that `repr`
  -- cannot print.
  pub number-IsJudged :
      (path : String) (raw : Option (Value Real)) (default : Real) (minimum : Option Real)
      (problems : List (ConfigProblem Real))
      → ((raw ≡ none)
          × (number prints numbers path raw default minimum problems ≡ gives default problems))
        ⊎ ((v : Value Real) × (raw ≡ some v)
            × IsJudged path v default minimum problems
                (number prints numbers path raw default minimum problems))
  unfolding number
  number-IsJudged path none default minimum problems = inl (refl, refl)
  number-IsJudged path (some (boolean b)) default minimum problems =
      inr
        (boolean b, refl, inr (inl (refl, refl, note-IsNoted path (boolean b) default _ problems)))
  number-IsJudged path (some (integer_value k)) default minimum problems =
      inr (integer_value k, refl, integer-IsJudged path k default minimum problems _ refl)
  number-IsJudged path (some (float_value f)) default minimum problems = inr (
    float_value f,
    refl,
    checked-IsJudged path (float_value f) default minimum problems f refl refl,
  )
  number-IsJudged path (some (string s)) default minimum problems =
      inr (string s, refl, text-IsJudged path s default minimum problems _ refl)
  number-IsJudged path (some (list es)) default minimum problems =
      inr (list es, refl, inr (inl (refl, refl, note-IsNoted path (list es) default _ problems)))
  number-IsJudged path (some (table es)) default minimum problems =
      inr (table es, refl, inr (inl (refl, refl, note-IsNoted path (table es) default _ problems)))
  number-IsJudged path (some moment) default minimum problems =
      inr (moment, refl, inr (inl (refl, refl, note-IsNoted path moment default _ problems)))

-- Each name once, and each an allowed one.
abbrev pub IsWithin : List String → List String → Type 0
IsWithin allowed names = (distinct names ≡ true) × (all (λ n. mem n allowed) names ≡ true)

-- Whether `repr` of what stands in the file returns, which it need not do for an absent key.
abbrev pub is_shown : {Real : Type 0} → (ℤ → Bool) → Option (Value Real) → Bool
is_shown prints none = true
is_shown prints (some v) = shows prints v

module _ {Real : Type 0} (prints : ℤ → Bool) (path : String) (allowed : List String) where
  -- A list of allowed names where the values can be printed, and an exception where they cannot.
  abbrev pub IsKept : Bool → Read Real (List String) → Type 0
  IsKept shown r =
      ((shown ≡ true)
        × (names : List String) × (problems : List (ConfigProblem Real)) × (r
            ≡ gives names problems)
        × IsWithin allowed names)
      ⊎ ((shown ≡ false) × (r ≡ raises))

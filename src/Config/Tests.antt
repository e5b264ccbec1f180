-- ===== src/Config/Tests.antt =====
-- config.py on a number that is too large for a float, and on a list of names with one twice.
use terminal_status_panel.Base.{ℕ, ◌≡◌, ◌⊎◌, Bool, true, false, Option, none, some, [], ltb}
use terminal_status_panel.StateFile.{ℤ, pos, negsuc}
use terminal_status_panel.Config.{
  Value, integer_value, string, list, no_value, value, gives, Numbers, number,
}
use terminal_status_panel.Config.Reading.{IsJudged, number-IsJudged}

abbrev small : ℤ → Option ℕ
small (pos n) = none
small (negsuc n) = some 0

abbrev numbers : Numbers ℕ
numbers = record {
  is_finite = λ f. true;
  is_nan = λ f. false;
  real_less = λ a b. ltb a b;
  less = λ a b. false;
  float_of_int = small;
  float_of_text = λ s. none;
  int_of_float = λ f. none;
  int_of_text = λ s. none;
}

abbrev huge : Option (Value ℕ)
huge = some (integer_value (pos 9))

abbrev short : ℤ → Bool
short (pos n) = ltb n 9
short (negsuc n) = true

number-IsJudged_example :
    ((huge ≡ none) × (number short numbers "follow.interval" huge 5 (some 1) [] ≡ gives 5 []))
    ⊎ ((v : Value ℕ) × (huge ≡ some v)
        × IsJudged short numbers "follow.interval" v 5
            (some 1)
            []
            (number short numbers "follow.interval" huge 5 (some 1) []))
number-IsJudged_example = number-IsJudged short numbers "follow.interval" huge 5 (some 1) []

abbrev enabled : Option (Value ℕ)
enabled =
    some (list (value (string "vrrp") (value (string "dns") (value (string "vrrp") no_value))))

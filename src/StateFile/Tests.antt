-- ===== src/StateFile/Tests.antt =====
-- model/host.py on a state with a measurement of Apache, where a float is a number of thousandths.
use terminal_status_panel.Base.{
  inl, inr, ℕ, ◌*◌, ◌≡◌, refl, true, Option, none, some, [], ◌∷◌, InSome, ◌==◌,
}
use terminal_status_panel.StateFile.{
  Fields, number, ℤ, pos, negsuc, whole, real, text, object, no_field, field, ok, HostState, Floats,
  to_dict, from_dict, finite,
}
use terminal_status_panel.StateFile.RoundTrip.{is_finite_state, from_dict-to_dict}
use terminal_status_panel.StateFile.Reading.{from_dict-finite}
use terminal_status_panel.StateFile.Newer.{from_dict_newer}

abbrev thousandths : ℤ → Option ℕ
thousandths (pos n) = some (n * 1000)
thousandths (negsuc n) = none

abbrev floats : Floats ℕ
floats = record {
  is_finite = λ f. true;
  is_one = λ f. f == 1000;
  is_zero = λ f. f == 0;
  of_int = thousandths;
}

abbrev state : HostState ℕ
state = record {
  written_at = 1500;
  collector = "0.1";
  vrrp = none;
  apache = some (record {
    window_s = whole (pos 30);
    requests_per_s = some (real 2500);
    slots_busy = none;
    workers_busy = none;
    slots_finishing = some (pos 1);
  });
  updates = none;
  events = ("oom_kill", record { count = pos 2; last = some (real 900) }) ∷ [];
  events_window_s = pos 43200;
  errors = ("apt", none) ∷ [];
}

state_finite : is_finite_state floats state ≡ true
unfolding finite
state_finite = refl

from_dict-to_dict_example : from_dict floats (to_dict state) ≡ ok state
from_dict-to_dict_example = from_dict-to_dict floats state state_finite

of_int-finite : (n : ℤ) → InSome (λ f. true ≡ true) (thousandths n)
of_int-finite (pos n) = refl
of_int-finite (negsuc n) = tt

from_dict-finite_example : is_finite_state floats state ≡ true
from_dict-finite_example =
    from_dict-finite floats of_int-finite (to_dict state) state
      (from_dict-to_dict floats state state_finite)

abbrev event : Fields ℕ
event = field "count" (number (whole (pos 2))) no_field

abbrev dated : Fields ℕ
dated = field "schema" (number (whole (pos 1))) (field "written_at" (number (real 1500)) no_field)

abbrev older : Fields ℕ
older = field "events" (object (field "oom" (object event) no_field)) dated

-- A newer collector's file, with a new key of the state and of an event.
abbrev newer : Fields ℕ
newer =
    field "kernel" (text "6.1") (
      field "events" (object (field "oom" (object (field "first" (text "") event)) no_field)) dated)

from_dict_newer_example : from_dict floats (object newer) ≡ from_dict floats (object older)
from_dict_newer_example = from_dict_newer floats newer older (
  (refl, (refl, (refl, (refl, (refl, tt))))),
  inl refl,
  inl refl,
  inl refl,
  inr (
    object (field "oom" (object (field "first" (text "") event)) no_field),
    object (field "oom" (object event) no_field),
    refl,
    refl,
    inr (
      field "oom" (object (field "first" (text "") event)) no_field,
      field "oom" (object event) no_field,
      refl,
      refl,
      (refl, inr (field "first" (text "") event, event, refl, refl, (refl, (refl, tt))), tt),
    ),
  ),
)

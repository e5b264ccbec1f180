-- ===== src/Collector/Apt.antt =====
-- src/terminal_status_panel/collector/apt.py: the pending updates that a simulated upgrade counts. The
-- simulation is given by how it ends; `recent` is whether the time of a count is less than an hour
-- ago.
pub mod Counts
mod Tests
use Prim.Native.Char.{code}
use terminal_status_panel.Base.{
  ℕ, suc, ◌==◌, Bool, true, false, not, ◌&&◌, ◌||◌, Option, none, some, List, [], ◌∷◌, String,
  is_space, is_empty, before, has_char, prefix, lower_is, splitlines, if◌then◌else◌,
}
use terminal_status_panel.StateFile.{ℤ, pos, Num, real, UpdateCounts}

-- `"-security" in s.lower()`
pub is_security : String → Bool
is_security String.[] = false
is_security (String.◌∷◌ c s) = lower_is (prefix 9 (String.◌∷◌ c s)) "-security" || is_security s

-- `.*\((?P<origin>[^)]*)\)`: what stands in the last brackets.
pub last_brackets : String → Option String
last_brackets String.[] = none
last_brackets (String.◌∷◌ c s) = elim (last_brackets s) [
  | some origin ↦ some origin
  | none ↦ if code c == b'(' && has_char b')' s then some (before b')' s) else none
]

-- `\S* `, and the last brackets behind it.
pub after_package : String → Option String
after_package String.[] = none
after_package (String.◌∷◌ c s) =
    let later = after_package s in
    if code c == b' ' then last_brackets s else if is_space (code c) then none else later

-- `\S+ ` wants one character at least.
abbrev name_part : String → Option String
name_part String.[] = none
name_part (String.◌∷◌ c s) = if is_space (code c) then none else after_package s

abbrev inst : List ℕ → String → Option String
inst [] s = name_part s
inst (c ∷ cs) String.[] = none
inst (c ∷ cs) (String.◌∷◌ d s) = if code d == c then inst cs s else none

-- The origin in a match of `_INST`.
pub inst_origin : String → Option String
inst_origin line = inst (b'I' ∷ b'n' ∷ b's' ∷ b't' ∷ b' ' ∷ []) line

abbrev pub add_line : Option String → ℕ × ℕ → ℕ × ℕ
add_line none counts = counts
add_line (some origin) (available, security) =
    (suc available, if is_security origin then suc security else security)

-- `parse_simulation`, of the lines.
pub count_lines : List String → ℕ × ℕ
count_lines [] = (0, 0)
count_lines (line ∷ lines) = add_line (inst_origin line) (count_lines lines)

pub parse_simulation : String → ℕ × ℕ
parse_simulation text = count_lines (splitlines text)

-- How the simulation ends: `FileNotFoundError`, `TimeoutExpired`, another `OSError`, or with an exit
-- code and its output.
pub data Simulation : Type 0 where
  no_program timed_out refused : Simulation
  exited : ℕ → String → Simulation

module _ {Real : Type 0} where
  abbrev pub counted : Real → ℕ × ℕ → UpdateCounts Real
  counted now (available, security) = record {
    checked_at = real now;
    available = pos available;
    security = pos security;
    source = "apt-simulate";
  }

  abbrev pub simulated :
      Option (UpdateCounts Real) → Real → Simulation → Option (UpdateCounts Real) × Option String
  simulated previous now no_program = (none, some "not-installed")
  simulated previous now timed_out = (previous, some "timeout")
  simulated previous now refused = (previous, some "apt-failed")
  simulated previous now (exited code' text) =
      if code' == 0
      then (some (counted now (parse_simulation text)), none)
      else (previous, some "apt-failed")

  -- `collect_updates`
  pub collect_updates :
      (Num Real → Bool)
      → Option (UpdateCounts Real)
      → Real
      → Simulation
      → Option (UpdateCounts Real) × Option String
  collect_updates recent none now simulation = simulated none now simulation
  collect_updates recent (some previous) now simulation =
      if recent previous.checked_at
      then (some previous, none)
      else simulated (some previous) now simulation

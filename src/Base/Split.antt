-- ===== src/Base/Split.antt =====
-- Python's `str` methods that look for a part of a text or cut it into parts.
use Prim.Native.Nat.{ℕ, zero, suc}
use Prim.Native.Char.{Char, code}
use Prim.Native.String.{String, ◌++◌ as ◌<>◌}
use text.Mathlib.Text.{starts_with as begins}
use mathlib.Core.Bool.{Bool, false, not, ◌&&◌, ◌||◌}
use mathlib.Core.Option.{Option, none, some}
use mathlib.Core.List.{List, [], ◌∷◌}
use mathlib.Core.Option.{map as map_option}
use terminal_status_panel.Base.Lists.{length}
use terminal_status_panel.Base.Texts.{codes, is_space, is_empty}
use terminal_status_panel.Base.Tests.{leb, ◌==◌, if◌then◌else◌}

-- `part in s`
unfoldable pub contains : String → String → Bool
contains part String.[] = is_empty part
contains part (String.◌∷◌ c s) = begins (String.◌∷◌ c s) part || contains part s

-- `chr(c) in s`
unfoldable pub has_char : ℕ → String → Bool
has_char sep String.[] = false
has_char sep (String.◌∷◌ c s) = code c == sep || has_char sep s

-- `s.partition(chr(sep))[2]`: what follows the first separator.
unfoldable pub after : ℕ → String → String
after sep String.[] = ""
after sep (String.◌∷◌ c s) = let rest = after sep s in if code c == sep then s else rest

abbrev pub skip : ℕ → String → String
skip zero s = s
skip (suc n) String.[] = ""
skip (suc n) (String.◌∷◌ c s) = skip n s

-- `s[:n]`
abbrev pub prefix : ℕ → String → String
prefix zero s = ""
prefix (suc n) String.[] = ""
prefix (suc n) (String.◌∷◌ c s) = String.◌∷◌ c (prefix n s)

abbrev to_first : Char → List String → List String
to_first c [] = String.◌∷◌ c "" ∷ []
to_first c (part ∷ parts) = String.◌∷◌ c part ∷ parts

-- `s.split(chr(sep))`
unfoldable pub split_on : ℕ → String → List String
split_on sep String.[] = "" ∷ []
split_on sep (String.◌∷◌ c s) =
    let parts = split_on sep s in if code c == sep then "" ∷ parts else to_first c parts

-- `s.rsplit(chr(sep), 1)[0]`
unfoldable pub before_last : ℕ → String → String
before_last sep String.[] = ""
before_last sep (String.◌∷◌ c s) =
    let rest = before_last sep s in
    if code c == sep && not (has_char sep s) then "" else String.◌∷◌ c rest

abbrev is_break : ℕ → Bool
is_break c = (leb 10 c && leb c 13) || (leb 28 c && leb c 30) || c == 133 || c == 8232 || c == 8233

abbrev pending : String → List String
pending current = if is_empty current then [] else current ∷ []

-- The lines of a text behind `current`, the begin of a line; `after_cr` is whether the character
-- before was a carriage return.
abbrev lines_from : String → Bool → String → List String
lines_from current after_cr String.[] = pending current
lines_from current after_cr (String.◌∷◌ c s) =
    let ends = is_break (code c) in
    let rest = lines_from (if ends then "" else current <> String.◌∷◌ c "") (code c == b'\r') s in
    if ends && not (after_cr && code c == b'\n') then current ∷ rest else rest

-- `s.splitlines()`
unfoldable pub splitlines : String → List String
splitlines s = lines_from "" false s

abbrev words_from : String → String → List String
words_from current String.[] = pending current
words_from current (String.◌∷◌ c s) =
    let rest = words_from (if is_space (code c) then "" else current <> String.◌∷◌ c "") s in
    if is_space (code c) && not (is_empty current) then current ∷ rest else rest

-- `s.split()`
unfoldable pub words : String → List String
words s = words_from "" s

-- `s.partition(mark)` for a mark that is not empty: what stands before its first occurrence and
-- what behind, `none` without one.
unfoldable pub partition : String → String → Option (String × String)
partition mark String.[] = none
partition mark (String.◌∷◌ c s) =
    let later = partition mark s in
    if begins (String.◌∷◌ c s) mark
    then some ("", skip (length (codes mark)) (String.◌∷◌ c s))
    else map_option (λ (front, back). (String.◌∷◌ c front, back)) later

-- `s.lstrip(chr(sep))`
unfoldable pub lstrip_char : ℕ → String → String
lstrip_char sep String.[] = ""
lstrip_char sep (String.◌∷◌ c s) =
    let rest = lstrip_char sep s in if code c == sep then rest else String.◌∷◌ c s

-- `s[:-1]` where `s.endswith(chr(last))`
unfoldable pub without_end : ℕ → String → Option String
without_end last String.[] = none
without_end last (String.◌∷◌ c s) =
    let rest = map_option (String.◌∷◌ c) (without_end last s) in
    if is_empty s && code c == last then some "" else rest

abbrev last_part : String → String → Option String
last_part mark String.[] = none
last_part mark (String.◌∷◌ c s) = elim (last_part mark s) [
  | some part ↦ some part
  | none ↦
      if begins (String.◌∷◌ c s) mark
      then some (skip (length (codes mark)) (String.◌∷◌ c s))
      else none
]

-- `s.rsplit(mark, 1)[-1]` for a mark that is not empty.
unfoldable pub after_last : String → String → String
after_last mark s = elim (last_part mark s) [ none ↦ s | some part ↦ part ]

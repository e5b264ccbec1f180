-- ===== src/Base/Texts.antt =====
-- Text whose length matters is the list of its code points. Text that is only compared is a
-- `String`.
use Prim.Native.Nat.{ℕ, zero, suc, ◌+◌, ◌/◌, ◌%◌}
use Prim.Native.Char.{code}
use Prim.Native.String.{String, compare, ◌++◌ as ◌<>◌}
use mathlib.Core.Bool.{Bool, true, false, ◌&&◌, ◌||◌}
use mathlib.Core.Option.{Option, none, some}
use mathlib.Core.List.{List, [], ◌∷◌, ◌++◌}
use text.Mathlib.Text.{is_le, is_lt}
pub use text.Mathlib.Text.{◌==◌ as str_eq}
use terminal_status_panel.Base.Lists.{get_or}
use terminal_status_panel.Base.Tests.{ltb, leb, ◌==◌, if◌then◌else◌}

abbrev pub Text : Type 0
Text = List ℕ

abbrev pub codes : String → Text
codes String.[] = []
codes (String.◌∷◌ c s) = code c ∷ codes s

-- The decimal digits of a number, most significant first. `fuel` bounds their count.
abbrev show_fuel : ℕ → ℕ → Text → Text
show_fuel zero n out = out
show_fuel (suc fuel) n out =
    let out' : Text = (n % 10 + b'0') ∷ out in
    let more = show_fuel fuel (n / 10) out' in if ltb n 10 then out' else more

-- `str(n)`: a number has fewer digits than itself plus one.
unfoldable pub show_ℕ : ℕ → Text
show_ℕ n = show_fuel (suc n) n []

-- `s in (…)`
abbrev pub mem : String → List String → Bool
mem s [] = false
mem s (x ∷ xs) = str_eq x s || mem s xs

abbrev digit : ℕ → String
digit n = get_or ("0" ∷ "1" ∷ "2" ∷ "3" ∷ "4" ∷ "5" ∷ "6" ∷ "7" ∷ "8" ∷ "9" ∷ []) n "9"

abbrev shown_fuel : ℕ → ℕ → String → String
shown_fuel zero n out = out
shown_fuel (suc fuel) n out =
    let out' : String = digit (n % 10) <> out in
    let more = shown_fuel fuel (n / 10) out' in if ltb n 10 then out' else more

-- `f"{n}"`
unfoldable pub shown : ℕ → String
shown n = shown_fuel (suc n) n ""

-- The code points that Python's `str.isspace` accepts.
abbrev pub is_space : ℕ → Bool
is_space c =
    (leb 9 c && leb c 13)
    || (leb 28 c && leb c 32)
    || c == 133
    || c == 160
    || c == 5760
    || (leb 8192 c && leb c 8202)
    || c == 8232
    || c == 8233
    || c == 8239
    || c == 8287
    || c == 12288

abbrev pub is_empty : String → Bool
is_empty String.[] = true
is_empty (String.◌∷◌ c s) = false

abbrev strip_left : String → String
strip_left String.[] = ""
strip_left (String.◌∷◌ c s) =
    let rest = strip_left s in if is_space (code c) then rest else String.◌∷◌ c s

abbrev strip_right : String → String
strip_right String.[] = ""
strip_right (String.◌∷◌ c s) =
    let rest = strip_right s in if is_space (code c) && is_empty rest then "" else String.◌∷◌ c rest

-- `s.strip()`
unfoldable pub strip : String → String
strip s = strip_right (strip_left s)

-- `s.split(c, 1)[0]` for a separator of one character.
unfoldable pub before : ℕ → String → String
before sep String.[] = ""
before sep (String.◌∷◌ c s) =
    let rest = before sep s in if code c == sep then "" else String.◌∷◌ c rest

-- `s or None`
abbrev pub nonempty : Option String → Option String
nonempty none = none
nonempty (some s) = if is_empty s then none else some s

-- `s or default`
abbrev pub or_text : Option String → String → String
or_text none default = default
or_text (some s) default = if is_empty s then default else s

-- `s <= t`, which compares code points.
abbrev pub text_leb : String → String → Bool
text_leb s t = is_le (compare s t)

-- `s < t`
abbrev pub text_ltb : String → String → Bool
text_ltb s t = is_lt (compare s t)

abbrev lower_code : ℕ → ℕ
lower_code c = if leb 65 c && leb c 90 then c + 32 else c

-- `s.lower() == t`, for a text `t` of ASCII letters other than `k`, which nothing outside ASCII
-- becomes.
unfoldable pub lower_is : String → String → Bool
lower_is String.[] String.[] = true
lower_is String.[] (String.◌∷◌ d t) = false
lower_is (String.◌∷◌ c s) String.[] = false
lower_is (String.◌∷◌ c s) (String.◌∷◌ d t) = lower_code (code c) == code d && lower_is s t

-- `sep.join(parts)`
unfoldable pub joined : Text → List Text → Text
joined sep [] = []
joined sep (part ∷ []) = part
joined sep (part ∷ next ∷ parts) = part ++ (sep ++ joined sep (next ∷ parts))

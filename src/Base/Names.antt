-- ===== src/Base/Names.antt =====
-- Lists of names: membership, and no name twice.
use Prim.Native.String.{String}
use text.Mathlib.TextEquality.{eq_iff}
use text.Mathlib.TextPositions.{eq_refl}
use mathlib.Core.Path.{◌≡◌, refl, ap, sym, ◌∙◌}
use mathlib.Core.Logic.{inl, inr}
use mathlib.Core.Bool.{Bool, true, false, not, ◌&&◌, ◌||◌}
use mathlib.Core.List.{List, [], ◌∷◌, ◌++◌}
use terminal_status_panel.Base.Tests.{
  Bool-cases, or_assoc, or_false, or_false_right, and_true, not-true, true-false,
}
use terminal_status_panel.Base.Texts.{mem, str_eq}

-- No text stands in the list twice.
abbrev pub distinct : List String → Bool
distinct [] = true
distinct (x ∷ xs) = not (mem x xs) && distinct xs

pub eq_flip : (x y : String) → str_eq y x ≡ false → str_eq x y ≡ false
eq_flip x y h = elim (Bool-cases (str_eq x y)) [
  | inl e ↦ absurd (true-false (sym (ap (λ z. str_eq y z) ((eq_iff x y).0 e) ∙ eq_refl y) ∙ h))
  | inr e ↦ e
]

pub mem-append : (x : String) (xs ys : List String) → mem x (xs ++ ys) ≡ (mem x xs || mem x ys)
mem-append x [] ys = refl
mem-append x (y ∷ xs) ys =
    ap (λ b. str_eq y x || b) (mem-append x xs ys)
    ∙ sym (or_assoc (str_eq y x) (mem x xs) (mem x ys))

pub distinct-snoc :
    (x : String) (xs : List String)
    → mem x xs ≡ false
    → distinct xs ≡ true
    → distinct (xs ++ (x ∷ [])) ≡ true
distinct-snoc x [] h d = refl
distinct-snoc x (y ∷ ys) h d =
    let (apart, later) = or_false (str_eq y x) (mem x ys) h in
    let (new, rest) = and_true (not (mem y ys)) (distinct ys) d in
    let absent =
      mem-append y ys (x ∷ [])
      ∙ ap (λ b. b || (str_eq x y || false)) (not-true (mem y ys) new)
      ∙ or_false_right (str_eq x y)
      ∙ eq_flip x y apart in
    rw absent (distinct-snoc x ys later rest)

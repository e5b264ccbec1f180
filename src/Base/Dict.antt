-- ===== src/Base/Dict.antt =====
-- Python's dicts with string keys, as association lists in the order of insertion.
use Prim.Native.String.{String}
use text.Mathlib.TextEquality.{eq_iff}
use text.Mathlib.TextPositions.{eq_refl}
use mathlib.Core.Path.{◌≡◌, ◌∙◌, ap}
use mathlib.Core.Logic.{inl, inr}
use mathlib.Core.Bool.{Bool, false, not, ◌||◌}
use mathlib.Core.Option.{Option, none, some}
use mathlib.Core.List.{List, [], ◌∷◌}
use terminal_status_panel.Base.Tests.{Bool-cases, if◌then◌else◌}
use terminal_status_panel.Base.Texts.{mem, str_eq}

module _ {A : Type 0} where
  -- `d.get(k)`
  unfoldable pub lookup : String → List (String × A) → Option A
  lookup k [] = none
  lookup k ((j, v) ∷ d) = if str_eq j k then some v else lookup k d

  abbrev pub has_key : String → List (String × A) → Bool
  has_key k [] = false
  has_key k ((j, v) ∷ d) = str_eq j k || has_key k d

  -- `{k: v for k, v in d.items() if k not in names}`
  abbrev pub without : List String → List (String × A) → List (String × A)
  without names [] = []
  without names ((k, v) ∷ d) =
      if not (mem k names) then (k, v) ∷ without names d else without names d

  -- The value under a key changed, or one made from nothing put at the end.
  unfoldable pub update : String → (Option A → A) → List (String × A) → List (String × A)
  update k f [] = (k, f none) ∷ []
  update k f ((j, v) ∷ d) = if str_eq j k then (j, f (some v)) ∷ d else (j, v) ∷ update k f d

  -- What an update puts under its key, and what it leaves under the others.
  pub lookup-update :
      (k : String) (f : Option A → A) (d : List (String × A))
      → lookup k (update k f d) ≡ some (f (lookup k d))
  unfolding lookup update
  lookup-update k f [] = rw (eq_refl k)
  lookup-update k f ((j, v) ∷ d) = elim (Bool-cases (str_eq j k)) [
    | inl e ↦ rw (e, e)
    | inr e ↦ rw (e, e) (lookup-update k f d)
  ]

  pub lookup-update_other :
      (j k : String) (f : Option A → A) (d : List (String × A))
      → str_eq j k ≡ false
      → lookup k (update j f d) ≡ lookup k d
  unfolding lookup update
  lookup-update_other j k f [] h = rw h
  lookup-update_other j k f ((i, v) ∷ d) h = elim (Bool-cases (str_eq i j)) [
    | inl e ↦ rw (e, ap (λ x. str_eq x k) ((eq_iff i j).0 e) ∙ h)
    | inr e ↦ rw e (ap (λ o. if str_eq i k then some v else o) (lookup-update_other j k f d h))
  ]

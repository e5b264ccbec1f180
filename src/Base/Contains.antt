-- ===== src/Base/Contains.antt =====
-- What a text contains, a longer text that begins with it contains.
use Prim.Native.String.{String, ◌++◌ as ◌<>◌}
use Prim.Native.String.append
use text.Mathlib.Text.{starts_with as begins}
use text.Mathlib.TextEquality.{starts_with_iff}
use text.Mathlib.TextLemmas.{append_assoc}
use mathlib.Core.Path.{◌≡◌, refl, ap, sym, ◌∙◌}
use mathlib.Core.Bool.{Bool, true, false, ◌||◌}
use terminal_status_panel.Base.Tests.{true-false, or_true}
use terminal_status_panel.Base.Split.{contains}

begins-append : (s t p : String) → begins s p ≡ true → begins (s <> t) p ≡ true
begins-append s t p h =
    let (r, e) = (starts_with_iff s p).0 h in
    (starts_with_iff (s <> t) p).1 (r <> t, sym (append_assoc p r t) ∙ ap (λ x. x <> t) e)

begins_empty : (s : String) → begins s "" ≡ true
begins_empty s = (starts_with_iff s "").1 (s, append.nil s)

empty-contained : (s : String) → contains "" s ≡ true
unfolding contains
empty-contained String.[] = refl
empty-contained (String.◌∷◌ c s) = ap (λ b. b || contains "" s) (begins_empty (String.◌∷◌ c s))

later-or :
    (first first' later later' : Bool)
    → (first ≡ true → first' ≡ true)
    → (later ≡ true → later' ≡ true)
    → (first || later) ≡ true
    → (first' || later') ≡ true
later-or true first' later later' h k e = ap (λ b. b || later') (h refl)
later-or false first' later later' h k e = ap (λ b. first' || b) (k e) ∙ or_true first'

pub contains-append : (p s t : String) → contains p s ≡ true → contains p (s <> t) ≡ true
unfolding contains
contains-append String.[] String.[] t h = empty-contained (String.[] <> t)
contains-append (String.◌∷◌ a p) String.[] t h = absurd (true-false (sym h))
contains-append p (String.◌∷◌ c s) t h = rw (append.cons c s t) (
    later-or (begins (String.◌∷◌ c s) p) _ (contains p s) _
      (λ e. ap (λ x. begins x p) (sym (append.cons c s t)) ∙ begins-append (String.◌∷◌ c s) t p e)
      (contains-append p s t) h)

-- ===== src/Traefik/Entrypoints.antt =====
-- collectors/traefik_parse.py, `parse_entrypoints`: which names are listed.
use text.Mathlib.TextEquality.{eq_iff}
use text.Mathlib.TextPositions.{eq_refl}
use terminal_status_panel.Base.{
  ℕ, ◌≡◌, refl, ap, sym, ◌∙◌, inl, inr, Bool, true, false, not, ◌&&◌, ◌||◌, Option, none, some,
  List, [], ◌∷◌, map, any, String, str_eq, mem, distinct, Bool-cases,
}
use terminal_status_panel.Traefik.{
  TraefikEntrypoint, match_entrypoint, add_entrypoint, entrypoints_from, parse_entrypoints,
}

abbrev is_named : String → Option (String × String) → Bool
is_named n none = false
is_named n (some (name, address)) = str_eq name n

abbrev pub names : List TraefikEntrypoint → List String
names entrypoints = map (λ e. e.name) entrypoints

module _ (fold : ℕ → ℕ) (int10 : String → Option ℕ) where
  -- The argument gives the entrypoint of this name an address.
  abbrev pub declares : String → String → Bool
  declares n arg = is_named n (match_entrypoint fold arg)

  mem-add_entrypoint :
      (n : String) (found : Option (String × String)) (declared : Bool) (seen : List String)
      (rest : List String → List TraefikEntrypoint)
      → ((seen' : List String) → mem n (names (rest seen')) ≡ (declared && not (mem n seen')))
      → mem n (names (add_entrypoint fold int10 found seen rest))
        ≡ ((is_named n found || declared) && not (mem n seen))
  mem-add_entrypoint n none declared seen rest h = h seen
  mem-add_entrypoint n (some (name, address)) declared seen rest h =
      elim (Bool-cases (str_eq name n)) [
        | inl e ↦
            let same = ap (λ x. mem x seen) ((eq_iff name n).0 e) in
            elim (Bool-cases (mem name seen)) [
              | inl m ↦ rw (m, e) (h seen ∙ rw (sym same ∙ m) (no_more declared))
              | inr m ↦ rw (m, e) (sym (rw (sym same ∙ m) refl))
            ]
        | inr e ↦ elim (Bool-cases (mem name seen)) [
          | inl m ↦ rw (m, e) (h seen)
          | inr m ↦ rw (m, e) (h (name ∷ seen) ∙ rw e refl)
        ]
      ]
    where
      no_more : (b : Bool) → (b && false) ≡ false
      no_more true = refl
      no_more false = refl

  mem-entrypoints_from :
      (n : String) (args seen : List String)
      → mem n (names (entrypoints_from fold int10 args seen))
        ≡ (any (declares n) args && not (mem n seen))
  unfolding entrypoints_from
  mem-entrypoints_from n [] seen = refl
  mem-entrypoints_from n (arg ∷ args) seen =
      mem-add_entrypoint n (match_entrypoint fold arg) (any (declares n) args) seen
        (entrypoints_from fold int10 args) (mem-entrypoints_from n args)

  distinct-add_entrypoint :
      (found : Option (String × String)) (args seen : List String)
      → ((seen' : List String) → distinct (names (entrypoints_from fold int10 args seen')) ≡ true)
      → distinct (names (add_entrypoint fold int10 found seen (entrypoints_from fold int10 args)))
        ≡ true
  distinct-add_entrypoint none args seen h = h seen
  distinct-add_entrypoint (some (name, address)) args seen h = elim (Bool-cases (mem name seen)) [
    | inl m ↦ rw m (h seen)
    | inr m ↦ rw m (
        rw
          (mem-entrypoints_from name args (name ∷ seen)
            ∙ listed name (any (declares name) args) seen)
          (h (name ∷ seen)))
  ]
    where
      listed : (x : String) (b : Bool) (xs : List String) → (b && not (mem x (x ∷ xs))) ≡ false
      listed x true xs = rw (eq_refl x) refl
      listed x false xs = refl

  distinct-entrypoints_from :
      (args seen : List String) → distinct (names (entrypoints_from fold int10 args seen)) ≡ true
  unfolding entrypoints_from
  distinct-entrypoints_from [] seen = refl
  distinct-entrypoints_from (arg ∷ args) seen =
      distinct-add_entrypoint (match_entrypoint fold arg) args seen (distinct-entrypoints_from args)

  -- A name is listed just if one of the arguments gives it an address, and no name is listed twice.
  pub parse_entrypoints-names :
      (args : List String) (n : String)
      → (mem n (names (parse_entrypoints fold int10 args)) ≡ any (declares n) args)
        × (distinct (names (parse_entrypoints fold int10 args)) ≡ true)
  unfolding parse_entrypoints
  parse_entrypoints-names args n = (
    mem-entrypoints_from n args [] ∙ and_true_right (any (declares n) args),
    distinct-entrypoints_from args [],
  )
    where
      and_true_right : (b : Bool) → (b && true) ≡ b
      and_true_right true = refl
      and_true_right false = refl

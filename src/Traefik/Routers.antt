-- ===== src/Traefik/Routers.antt =====
-- collectors/traefik_parse.py, `parse_labels`: which routers are listed, and what each has.
use text.Mathlib.TextEquality.{eq_iff}
use terminal_status_panel.Base.{
  ℕ, ◌≡◌, refl, ap, sym, ◌∙◌, inl, inr, Bool, true, false, ◌||◌, Option, none, some, List, [], ◌∷◌,
  map, any, All, String, str_eq, lower_is, text_leb, is_some, or_assoc, or_false_right, Bool-cases,
  if◌then◌else◌,
}
use terminal_status_panel.Base.Dict.{update}
use terminal_status_panel.Base.Sorting.{sort, insert, All-sort}
use terminal_status_panel.Traefik.{
  TraefikRouter, Wiring, no_wiring, apply_router_label, new_router, or_new, match_router,
  match_middleware, match_service, apply_match, add_label, add_labels, with_service, parse_labels,
}

or_comm : (a b c : Bool) → (a || (b || c)) ≡ (b || (a || c))
or_comm true true c = refl
or_comm true false c = refl
or_comm false b c = refl

any-insert :
    {A : Type 0} (before : A → A → Bool) (p : A → Bool) (x : A) (xs : List A)
    → any p (insert before x xs) ≡ (p x || any p xs)
any-insert before p x [] = refl
any-insert before p x (y ∷ ys) = elim (Bool-cases (before x y)) [
  | inl e ↦ rw e refl
  | inr e ↦ rw e (ap (λ c. p y || c) (any-insert before p x ys) ∙ or_comm (p y) (p x) (any p ys))
]

any-sort :
    {A : Type 0} (before : A → A → Bool) (p : A → Bool) (xs : List A)
    → any p (sort before xs) ≡ any p xs
any-sort before p [] = refl
any-sort before p (x ∷ xs) =
    any-insert before p x (sort before xs) ∙ ap (λ b. p x || b) (any-sort before p xs)

apply_router_label-name :
    (r : TraefikRouter) (key value : String) → (apply_router_label r key value).name ≡ r.name
unfolding apply_router_label
apply_router_label-name r key value = kept (lower_is key "entrypoints") _ _ refl (
    kept (lower_is key "rule") _ _ refl (
      kept (lower_is key "middlewares") _ _ refl
        (kept (lower_is key "service") _ _ refl (kept (lower_is key "tls") _ _ refl refl))))
  where
    kept :
        (b : Bool) (x y : TraefikRouter)
        → x.name ≡ r.name
        → y.name ≡ r.name
        → (if b then x else y).name ≡ r.name
    kept true x y h k = h
    kept false x y h k = k

-- The entry stands under the name.
abbrev is_under : {A : Type 0} → String → String × A → Bool
is_under n (k, v) = str_eq k n

or_absorb : (a b : Bool) → (a || b) ≡ ((a || b) || a)
or_absorb true b = refl
or_absorb false b = sym (or_false_right b)

any-update :
    {A : Type 0} (n k : String) (f : Option A → A) (d : List (String × A))
    → any (is_under n) (update k f d) ≡ (any (is_under n) d || str_eq k n)
unfolding update
any-update n k f [] = or_false_right (str_eq k n)
any-update n k f ((j, v) ∷ d) = elim (Bool-cases (str_eq j k)) [
  | inl e ↦ rw e (
      or_absorb (str_eq j n) (any (is_under n) d)
      ∙ ap (λ x. (str_eq j n || any (is_under n) d) || str_eq x n) ((eq_iff j k).0 e))
  | inr e ↦ rw e (
      ap (λ b. str_eq j n || b) (any-update n k f d)
      ∙ sym (or_assoc (str_eq j n) (any (is_under n) d) (str_eq k n)))
]

-- Every router stands under its own name.
abbrev OwnNames : List (String × TraefikRouter) → Type 0
OwnNames d = All (λ entry. (entry.1.name ≡ entry.0)) d

update-OwnNames :
    (k origin key value : String) (d : List (String × TraefikRouter))
    → OwnNames d
    → OwnNames (update k (λ old. apply_router_label (or_new (new_router k origin) old) key value) d)
unfolding update
update-OwnNames k origin key value [] h =
    (apply_router_label-name (new_router k origin) key value, tt)
update-OwnNames k origin key value ((j, r) ∷ d) (h, hs) = elim (Bool-cases (str_eq j k)) [
  | inl e ↦ rw e (apply_router_label-name r key value ∙ h, hs)
  | inr e ↦ rw e (h, update-OwnNames k origin key value d hs)
]

abbrev is_named : String → Option (String × String) → Bool
is_named n none = false
is_named n (some (name, field)) = str_eq name n

any-listed :
    (n : String) (d : List (String × TraefikRouter))
    → OwnNames d
    → any (λ r. str_eq r.name n) (map (λ entry. with_service entry.1) d) ≡ any (is_under n) d
any-listed n [] h = refl
any-listed n ((k, r) ∷ d) (h, hs) =
    ap (λ x. str_eq x n || any (λ r'. str_eq r'.name n) (map (λ entry. with_service entry.1) d)) h
    ∙ ap (λ b. str_eq k n || b) (any-listed n d hs)

all_served :
    (d : List (String × TraefikRouter))
    → All (λ r. (is_some r.service ≡ true)) (map (λ entry. with_service entry.1) d)
all_served [] = tt
all_served (entry ∷ d) = (refl, all_served d)

module _ (fold : ℕ → ℕ) (int10 : String → Option ℕ) (origin docker_name : String) where
  -- The label belongs to the router of this name.
  abbrev pub declares : String → String × String → Bool
  declares n (key, value) = is_named n (match_router fold key)

  any-apply_match :
      (n : String) (r : Option (String × String)) (m : Option (String × (String × String)))
      (s : Option (String × String)) (value : String) (w : Wiring)
      → any (is_under n) (apply_match fold int10 origin docker_name r m s value w).routers
        ≡ (any (is_under n) w.routers || is_named n r)
  any-apply_match n (some (name, field)) m s value w = any-update n name _ w.routers
  any-apply_match n none (some (name, (kind, field))) s value w =
      sym (or_false_right (any (is_under n) w.routers))
  any-apply_match n none none (some (name, field)) value w =
      sym (or_false_right (any (is_under n) w.routers))
  any-apply_match n none none none value w = sym (or_false_right (any (is_under n) w.routers))

  apply_match-OwnNames :
      (r : Option (String × String)) (m : Option (String × (String × String)))
      (s : Option (String × String)) (value : String) (w : Wiring)
      → OwnNames w.routers
      → OwnNames ((apply_match fold int10 origin docker_name r m s value w).routers)
  apply_match-OwnNames (some (name, field)) m s value w h =
      update-OwnNames name origin field value w.routers h
  apply_match-OwnNames none (some (name, (kind, field))) s value w h = h
  apply_match-OwnNames none none (some (name, field)) value w h = h
  apply_match-OwnNames none none none value w h = h

  any-add_labels :
      (n : String) (labels : List (String × String)) (w : Wiring)
      → any (is_under n) (add_labels fold int10 origin docker_name labels w).routers
        ≡ (any (is_under n) w.routers || any (declares n) labels)
  unfolding add_labels add_label
  any-add_labels n [] w = sym (or_false_right (any (is_under n) w.routers))
  any-add_labels n ((key, value) ∷ labels) w =
      any-add_labels n labels _
      ∙ ap (λ b. b || any (declares n) labels)
          (any-apply_match n (match_router fold key) (match_middleware fold key)
            (match_service fold key) value w)
      ∙ or_assoc (any (is_under n) w.routers) (declares n (key, value)) (any (declares n) labels)

  add_labels-OwnNames :
      (labels : List (String × String)) (w : Wiring)
      → OwnNames w.routers
      → OwnNames ((add_labels fold int10 origin docker_name labels w).routers)
  unfolding add_labels add_label
  add_labels-OwnNames [] w h = h
  add_labels-OwnNames ((key, value) ∷ labels) w h = add_labels-OwnNames labels _ (
      apply_match-OwnNames (match_router fold key) (match_middleware fold key)
        (match_service fold key) value w h)

  -- A router is listed under a name just if one of the labels belongs to a router of that name, in the
  -- spelling of the label; and every listed router has a service.
  pub parse_labels-routers :
      (labels : List (String × String)) (n : String)
      → (any (λ r. str_eq r.name n) ((parse_labels fold int10 origin docker_name labels).0)
          ≡ any (declares n) labels)
        × All
            (λ r. (is_some r.service ≡ true))
            ((parse_labels fold int10 origin docker_name labels).0)
  unfolding parse_labels
  parse_labels-routers labels n =
      let sorted = sort (λ a b. text_leb a.0 b.0) labels in
      let w = add_labels fold int10 origin docker_name sorted no_wiring in
      let own =
        All-sort (λ entry. (entry.1.name ≡ entry.0)) (λ a b. text_leb a.0 b.0) w.routers
          (add_labels-OwnNames sorted no_wiring tt) in
      (
        any-listed n (sort (λ a b. text_leb a.0 b.0) w.routers) own
            ∙ any-sort (λ a b. text_leb a.0 b.0) (is_under n) w.routers
            ∙ any-add_labels n sorted no_wiring
            ∙ any-sort (λ a b. text_leb a.0 b.0) (declares n) labels,
        all_served (sort (λ a b. text_leb a.0 b.0) w.routers),
      )

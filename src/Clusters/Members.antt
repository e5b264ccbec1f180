-- ===== src/Clusters/Members.antt =====
-- collectors/clusters.py, `locate_member` and `_note_extra_containers`: which container is found, and
-- what a note leaves alone.
use mathlib.Core.Option.{some-injective}
use terminal_status_panel.Base.{
  ℕ, suc, ◌≡◌, refl, ap, sym, subst, ◌∙◌, inl, inr, Bool, true, false, none, some, List, [], ◌∷◌,
  String, length, filter, count_of, is_some, contains, or_true, contains-append, ◌<>◌, true-false,
  not, ◌||◌, ◌==◌, any, Elem, Bool-cases, if◌then◌else◌,
}
use terminal_status_panel.Model.Health.{ClusterService}
use terminal_status_panel.Clusters.{
  Tried, answered, raised, Container, Index, Patterns, Located, found, verdict, is_match,
  wanted_here, located, among, container_names, kind_for_service, first_kind, excluded,
  locate_member, on_member, on_answer, note_extras,
}

pub note_extras-kind : (s : ClusterService) (n : ℕ) → (note_extras s n).kind ≡ s.kind
unfolding note_extras
note_extras-kind s n = elim (Bool-cases (n == 0)) [ inl e ↦ rw e refl | inr e ↦ rw e refl ]

abbrev pub Names : String → Located → Type 0
Names kind (verdict s) = s.kind ≡ kind
Names kind (found c n) = Unit

module _ (lower : String → String) (i : Index) (kind : String) (p : Patterns) where
  located-Names : (cs : List Container) → Names kind (located lower i kind p cs)
  unfolding located
  located-Names [] = elim (Bool-cases (wanted_here lower i p)) [
    | inl e ↦ rw (Names, e) refl
    | inr e ↦ rw (Names, e) refl
  ]
  located-Names (c ∷ cs) = tt

  among-Names : (t : Tried (List Container)) → Names kind (among lower i kind p t)
  among-Names (raised e) = refl
  among-Names (answered cs) = located-Names (filter (is_match lower p) cs)

  pub locate_member-Names : Names kind (locate_member lower i kind p)
  unfolding locate_member
  locate_member-Names = among-Names i.containers

pub on_member-kind :
    (kind : String) (l : Located) (probe : Container → ℕ → ClusterService)
    → Names kind l
    → ((c : Container) (n : ℕ) → (probe c n).kind ≡ kind)
    → (on_member l probe).kind ≡ kind
on_member-kind kind (verdict s) probe h k = h
on_member-kind kind (found c n) probe h k = k c n

pub on_answer-kind :
    {A : Type 0} (kind : String) (t : Tried A) (judge : A → ClusterService)
    → ((a : A) → (judge a).kind ≡ kind)
    → (on_answer kind t judge).kind ≡ kind
on_answer-kind kind (raised e) judge h = refl
on_answer-kind kind (answered a) judge h = h a

-- What is known of the container that is found, the first that matches, and of the number of the
-- others; or, where none matches, of the verdict.
abbrev pub IsFirst : (String → String) → Index → Patterns → List Container → Located → Type 0
IsFirst lower i p cs (verdict s) =
    (filter (is_match lower p) cs ≡ [])
    × (s.reachable ≡ false)
    × (s.applicable ≡ wanted_here lower i p)
    × (is_some s.error ≡ wanted_here lower i p)
IsFirst lower i p cs (found c extras) =
    Elem c cs × (is_match lower p c ≡ true) × (count_of (is_match lower p) cs ≡ suc extras)

kept_or_not :
    (q : Container → Bool) (x : Container) (xs kept : List Container) (c : Container) (b : Bool)
    → q x ≡ b
    → (Elem c kept → Elem c xs × (q c ≡ true))
    → Elem c (if b then x ∷ kept else kept)
    → Elem c (x ∷ xs) × (q c ≡ true)
kept_or_not q x xs kept c true e h (inl same) = (inl same, ap q same ∙ e)
kept_or_not q x xs kept c true e h (inr m) = let (there, matched) = h m in (inr there, matched)
kept_or_not q x xs kept c false e h m = let (there, matched) = h m in (inr there, matched)

Elem-filter :
    (q : Container → Bool) (cs : List Container) (c : Container)
    → Elem c (filter q cs)
    → Elem c cs × (q c ≡ true)
Elem-filter q [] c m = absurd m
Elem-filter q (x ∷ xs) c m = kept_or_not q x xs (filter q xs) c (q x) refl (Elem-filter q xs c) m

module _ (lower : String → String) (i : Index) (kind : String) (p : Patterns)
    (cs : List Container) where
  located-IsFirst :
      (ms : List Container)
      → filter (is_match lower p) cs ≡ ms
      → IsFirst lower i p cs (located lower i kind p ms)
  unfolding located
  located-IsFirst [] e = elim (Bool-cases (wanted_here lower i p)) [
    | inl w ↦ rw (IsFirst, w) (e, refl, refl, refl)
    | inr w ↦ rw (IsFirst, w) (e, refl, refl, refl)
  ]
  located-IsFirst (c ∷ more) e =
      let (there, matched) =
        Elem-filter (is_match lower p) cs c (subst (Elem c) (sym e) (inl refl)) in
      (there, matched, ap length e)

  -- Where the list of containers is answered, a container that is found runs here and matches, and
  -- the extras are the number of the other ones that match. Where none matches, the kind is reported
  -- as not reached: with an error if Swarm wants a task on this node, as not applicable if not.
  pub locate_member-IsFirst :
      i.containers ≡ answered cs → IsFirst lower i p cs (locate_member lower i kind p)
  unfolding locate_member
  locate_member-IsFirst e =
      subst (λ t. IsFirst lower i p cs (among lower i kind p t)) (sym e)
        (located-IsFirst (filter (is_match lower p) cs) refl)

none-some : {A : Type 0} (a : A) → ¬ (none ≡ some a)
none-some a h = true-false (ap (λ o. not (is_some o)) h)

any-weaker :
    {A : Type 0} (f g : A → Bool) (xs : List A)
    → ((x : A) → f x ≡ true → g x ≡ true)
    → any f xs ≡ true
    → any g xs ≡ true
any-weaker f g [] h e = e
any-weaker f g (x ∷ xs) h e = elim (Bool-cases (f x)) [
  | inl hit ↦ ap (λ b. b || any g xs) (h x hit)
  | inr miss ↦
      ap (λ b. g x || b) (any-weaker f g xs h (sym (ap (λ b. b || any f xs) miss) ∙ e))
      ∙ or_true (g x)
]

first_kind-Elem :
    (hit : String → Bool) (kinds : List (String × List String)) (kind : String)
    → first_kind hit kinds ≡ some kind
    → (patterns : List String) × Elem (kind, patterns) kinds × (any hit patterns ≡ true)
first_kind-Elem hit [] kind h = absurd (none-some kind h)
first_kind-Elem hit ((k, ps) ∷ kinds) kind h = elim (Bool-cases (any hit ps)) [
  | inl e ↦
      let same : some k ≡ some kind =
        sym (ap (λ b. if b then some k else first_kind hit kinds) e) ∙ h in
      (ps, inl (ap (λ x. (x, ps)) (sym (some-injective k kind same))), e)
  | inr e ↦
      let (patterns, there, matched) =
        first_kind-Elem hit kinds kind
          (sym (ap (λ b. if b then some k else first_kind hit kinds) e) ∙ h) in
      (patterns, inr there, matched)
]

-- A container whose only name begins with the name of a service, as that of Swarm's tasks does
-- (`service.slot.id`): where no excluded name is in the container's name and the service's name is
-- given a kind, one of the pattern lists of that kind matches the container.
pub kind_for_service-is_match :
    (lower : String → String) (kinds : List (String × List String)) (exclude : List String)
    (name kind own rest : String) (c : Container)
    → container_names c ≡ own ∷ []
    → lower own ≡ lower name <> rest
    → excluded lower (lower own ∷ []) exclude ≡ false
    → kind_for_service lower kinds exclude name ≡ some kind
    → (patterns : List String) × Elem (kind, patterns) kinds
      × (is_match lower (record { match = patterns; exclude = exclude }) c ≡ true)
unfolding kind_for_service is_match
kind_for_service-is_match lower kinds exclude name kind own rest c h l kept k =
    elim (Bool-cases (excluded lower (lower name ∷ []) exclude)) [
      | inl e ↦
          absurd (none-some kind (sym (ap (λ b. if b then none else first_kind hit kinds) e) ∙ k))
      | inr e ↦
          let (patterns, there, matched) =
            first_kind-Elem hit kinds kind
              (sym (ap (λ b. if b then none else first_kind hit kinds) e) ∙ k) in
          (
            patterns,
            there,
            rw (h, kept)
                (any-weaker hit (λ q. contains (lower q) (lower own) || false) patterns
                  (λ q m. ap (λ b. b || false) (contained q m)) matched),
          )
    ]
  where
    hit : String → Bool
    hit pattern = contains (lower pattern) (lower name)

    contained :
        (q : String)
        → contains (lower q) (lower name) ≡ true
        → contains (lower q) (lower own) ≡ true
    contained q m = ap (contains (lower q)) l ∙ contains-append (lower q) (lower name) rest m

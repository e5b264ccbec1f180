-- ===== src/Budget/Outcome.antt =====
-- budget.py: what `run_with_budget` reports of each task, and when it returns.
use text.Mathlib.TextEquality.{eq_iff}
use text.Mathlib.TextPositions.{eq_refl}
use terminal_status_panel.Base.{
  ℕ, ◌+◌, ◌≤◌, ◌≡◌, refl, sym, ◌∙◌, subst, true, false, not, ◌||◌, ◌&&◌, List, [], ◌∷◌, map, arith,
  String, inl, inr, leb, length, filter, All, Elem, All-Elem, All-of_Elem, mem, str_eq, Bool-cases,
  if◌then◌else◌,
}
use terminal_status_panel.Base.Sorting.{sort, sort-IsSorted, Elem-sort, Elem-of_sort, All-sort}
use terminal_status_panel.Base.Dict.{has_key, without}
use terminal_status_panel.Budget.{
  returns, raises, hangs, alive_at, Task, Limits, deadline_of, by_deadline, returned_by, raised_by,
  join_loop, run_with_budget,
}
use terminal_status_panel.Budget.Expiry.{on_time, late_names, join_loop_lem}

module _ {V : Type 0} where
  -- No two tasks share a name: they are the keys of a dict.
  abbrev pub NodupNames : List (Task V) → Type 0
  NodupNames [] = Unit
  NodupNames (t ∷ tasks) =
      All (λ (u : Task V). str_eq t.name u.name ≡ false) tasks × NodupNames tasks

  eq_of_name :
      (t u : Task V) (tasks : List (Task V))
      → NodupNames tasks
      → Elem t tasks
      → Elem u tasks
      → t.name ≡ u.name
      → t ≡ u
  eq_of_name t u [] d m n e = absurd m
  eq_of_name t u (x ∷ tasks) d (inl p) (inl q) e = p ∙ sym q
  eq_of_name t u (x ∷ tasks) d (inl p) (inr n) e = absurd (
      ground (
        arith,
        All-Elem (λ (u : Task V). str_eq x.name u.name ≡ false) tasks u d.0 n,
        eq_iff x.name u.name,
      ))
  eq_of_name t u (x ∷ tasks) d (inr m) (inl q) e = absurd (
      ground (
        arith,
        All-Elem (λ (u : Task V). str_eq x.name u.name ≡ false) tasks t d.0 m,
        eq_iff x.name t.name,
      ))
  eq_of_name t u (x ∷ tasks) d (inr m) (inr n) e = eq_of_name t u tasks d.1 m n e

  -- The reports that the deadlines alone decide.
  pub on_time_results : Limits → List (Task V) → List (String × V)
  on_time_results l [] = []
  on_time_results l (t ∷ tasks) = elim t.ending [
    | returns at v ↦
        if leb at (deadline_of l t.name)
        then (t.name, v) ∷ on_time_results l tasks
        else on_time_results l tasks
    | raises at e ↦ on_time_results l tasks
    | hangs ↦ on_time_results l tasks
  ]

  pub on_time_failures : Limits → List (Task V) → List (String × String)
  on_time_failures l [] = []
  on_time_failures l (t ∷ tasks) = elim t.ending [
    | returns at v ↦ on_time_failures l tasks
    | raises at e ↦
        if leb at (deadline_of l t.name)
        then (t.name, e) ∷ on_time_failures l tasks
        else on_time_failures l tasks
    | hangs ↦ on_time_failures l tasks
  ]

  module _ (l : Limits) (now : ℕ) (expired : List String) where
    -- What the joins leave: the expired names are those of the late tasks, and the others ended.
    record IsDecided (t : Task V) : Type 0 where
      named : mem t.name expired ≡ not (on_time l t)
      ended : on_time l t && alive_at now t.ending ≡ false

    without-returned :
        (tasks : List (Task V))
        → All IsDecided tasks
        → without expired (returned_by now tasks) ≡ on_time_results l tasks
    unfolding returned_by on_time_results
    without-returned [] h = refl
    without-returned (t ∷ tasks) h =
        let d = h.0 in
        let a = d.named in let b = d.ended in ground (arith, without-returned tasks h.1)

    without-raised :
        (tasks : List (Task V))
        → All IsDecided tasks
        → without expired (raised_by now tasks) ≡ on_time_failures l tasks
    unfolding raised_by on_time_failures
    without-raised [] h = refl
    without-raised (t ∷ tasks) h =
        let d = h.0 in
        let a = d.named in let b = d.ended in ground (arith, without-raised tasks h.1)

    has_key_self :
        (t : Task V) (tasks : List (Task V))
        → alive_at now t.ending ≡ false
        → (has_key t.name (returned_by now (t ∷ tasks))
            || has_key t.name (raised_by now (t ∷ tasks)))
          ≡ true
    unfolding returned_by raised_by
    has_key_self t tasks e = ground (arith, eq_refl t.name)

    has_key_ended :
        (tasks : List (Task V)) (t : Task V)
        → Elem t tasks
        → alive_at now t.ending ≡ false
        → (has_key t.name (returned_by now tasks) || has_key t.name (raised_by now tasks)) ≡ true
    unfolding returned_by raised_by
    has_key_ended [] t m e = absurd m
    has_key_ended (u ∷ tasks) t (inl p) e =
        subst
          (λ (x : Task V).
            (has_key x.name (returned_by now (u ∷ tasks))
              || has_key x.name (raised_by now (u ∷ tasks)))
            ≡ true)
          (sym p) (has_key_self u tasks (subst (λ (x : Task V). alive_at now x.ending ≡ false) p e))
    has_key_ended (u ∷ tasks) t (inr m) e = ground (arith, has_key_ended tasks t m e)

    filter-unreported :
        (whole tasks : List (Task V))
        → All IsDecided tasks
        → All (λ t. Elem t whole) tasks
        → filter
            (λ name.
              mem name expired
              || (not (has_key name (returned_by now whole))
                  && not (has_key name (raised_by now whole))))
            (map (λ (t : Task V). t.name) tasks)
          ≡ late_names l tasks
    filter-unreported whole [] h m = refl
    filter-unreported whole (t ∷ tasks) h m =
        let d = h.0 in
        let a = d.named in
        let b = d.ended in
        ground (arith, filter-unreported whole tasks h.1 m.1, has_key_ended whole t m.0)

  late-Elem :
      (l : Limits) (t : Task V) (tasks : List (Task V))
      → Elem t tasks
      → on_time l t ≡ false
      → mem t.name (late_names l tasks) ≡ true
  late-Elem l t [] m e = absurd m
  late-Elem l t (u ∷ tasks) (inl p) e =
      subst (λ (x : Task V). mem x.name (late_names l (u ∷ tasks)) ≡ true) (sym p)
        (first (subst (λ (x : Task V). on_time l x ≡ false) p e))
    where
      first : on_time l u ≡ false → mem u.name (late_names l (u ∷ tasks)) ≡ true
      first h = rw (h, eq_refl)
  late-Elem l t (u ∷ tasks) (inr m) e = ground (arith, late-Elem l t tasks m e)

  mem-late :
      (l : Limits) (name : String) (tasks : List (Task V))
      → mem name (late_names l tasks) ≡ true
      → (t : Task V) × Elem t tasks × (name ≡ t.name) × (on_time l t ≡ false)
  mem-late l name [] h = cc
  mem-late l name (u ∷ tasks) h = elim (Bool-cases (on_time l u)) [
    | inl e ↦ let (t, m, n, o) = mem-late l name tasks (rw e at h) in (t, inr m, n, o)
    | inr e ↦ elim (Bool-cases (str_eq u.name name)) [
      | inl same ↦ (u, inl refl, sym ((eq_iff u.name name).0 same), e)
      | inr other ↦ let (t, m, n, o) = mem-late l name tasks (ground arith) in (t, inr m, n, o)
    ]
  ]

  -- Sorted or not, the late names decide each task of the list.
  mem-late_names :
      (l : Limits) (t : Task V) (tasks : List (Task V))
      → NodupNames tasks
      → Elem t tasks
      → mem t.name (late_names l (sort (by_deadline l) tasks)) ≡ not (on_time l t)
  mem-late_names l t tasks d m = elim (Bool-cases (on_time l t)) [
    | inr late ↦
        rw late
          (late-Elem l t (sort (by_deadline l) tasks) (Elem-sort (by_deadline l) t tasks m) late)
    | inl punctual ↦ elim (Bool-cases (mem t.name (late_names l (sort (by_deadline l) tasks)))) [
      | inr absent ↦ rw (absent, punctual)
      | inl named ↦
          let (u, n, same, late) = mem-late l t.name (sort (by_deadline l) tasks) named in
          let twin = eq_of_name t u tasks d m (Elem-of_sort (by_deadline l) u tasks n) same in
          cc (subst (λ x. on_time l x ≡ true) twin punctual)
    ]
  ]

  deadlines-le :
      (l : Limits) (tasks : List (Task V))
      → All (λ (t : Task V). deadline_of l t.name ≤ l.started + l.budget) tasks
  unfolding deadline_of
  deadlines-le l [] = tt
  deadlines-le l (t ∷ tasks) = (omega arith, deadlines-le l tasks)

  deadlines-ge :
      (l : Limits) (tasks : List (Task V))
      → All (λ (t : Task V). l.started ≤ deadline_of l t.name) tasks
  unfolding deadline_of
  deadlines-ge l [] = tt
  deadlines-ge l (t ∷ tasks) = (omega arith, deadlines-ge l tasks)

  joined :
      (l : Limits) (tasks : List (Task V))
      → let sorted = sort (by_deadline l) tasks in
        let now = (join_loop l l.started sorted).1 in
        ((join_loop l l.started sorted).0 ≡ late_names l sorted)
        × (now ≤ l.started + l.budget)
        × (l.started ≤ now)
        × All (λ (t : Task V). on_time l t && alive_at now t.ending ≡ false) sorted
  joined l tasks =
      let sorted = sort (by_deadline l) tasks in
      join_loop_lem l l.started (l.started + l.budget) sorted
        (sort-IsSorted (λ (t : Task V). deadline_of l t.name) tasks)
        (All-sort (λ (t : Task V). l.started ≤ deadline_of l t.name) (by_deadline l) tasks
          (deadlines-ge l tasks))
        (All-sort (λ (t : Task V). deadline_of l t.name ≤ l.started + l.budget) (by_deadline l)
          tasks (deadlines-le l tasks))
        (omega arith)

  -- Each task is judged by its own deadline alone, whatever the others do: those that end by it
  -- are reported with their value or their error, and exactly the others as truncated. The call
  -- returns within the budget.
  pub run_with_budget_lem :
      (l : Limits) (stragglers tasks : List (Task V))
      → NodupNames tasks
      → ((run_with_budget l stragglers tasks).0 ≡ record {
        results = on_time_results l tasks;
        truncated = late_names l tasks;
        failed = on_time_failures l tasks;
      })
        × ((run_with_budget l stragglers tasks).2 ≤ l.started + l.budget)
  unfolding run_with_budget
  run_with_budget_lem l stragglers tasks d =
      let sorted = sort (by_deadline l) tasks in
      let (names, ends, later, ended) = joined l tasks in
      let now = (join_loop l l.started sorted).1 in
      let decided : All (IsDecided l now (late_names l sorted)) tasks =
        All-of_Elem (IsDecided l now (late_names l sorted)) tasks (λ t m. record {
          named = mem-late_names l t tasks d m;
          ended =
              All-Elem (λ (t : Task V). on_time l t && alive_at now t.ending ≡ false) sorted t ended
                (Elem-sort (by_deadline l) t tasks m);
        }) in
      (
        rw
            (
              names,
              without-returned l now (late_names l sorted) tasks decided,
              without-raised l now (late_names l sorted) tasks decided,
              filter-unreported l now (late_names l sorted) tasks tasks decided
                  (All-of_Elem (λ t. Elem t tasks) tasks (λ t m. m)),
            )
            refl,
        ends,
      )

  -- Every task is reported exactly once: the reports are as many as the tasks.
  reports_add_up :
      (l : Limits) (tasks : List (Task V))
      → length (on_time_results l tasks)
          + length (late_names l tasks)
          + length (on_time_failures l tasks)
        ≡ length tasks
  unfolding on_time_results on_time_failures
  reports_add_up l [] = refl
  reports_add_up l (t ∷ tasks) = ground (arith, reports_add_up l tasks)

  -- The three reports together are as many as the tasks: none is lost and none counted twice.
  pub run_with_budget_total :
      (l : Limits) (stragglers tasks : List (Task V))
      → NodupNames tasks
      → length (run_with_budget l stragglers tasks).0.results
          + length (run_with_budget l stragglers tasks).0.truncated
          + length (run_with_budget l stragglers tasks).0.failed
        ≡ length tasks
  run_with_budget_total l stragglers tasks d =
      rw ((run_with_budget_lem l stragglers tasks d).0) (reports_add_up l tasks)

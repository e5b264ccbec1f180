-- ===== src/Docker/Trouble/Failures.antt =====
-- docker.py: what `_failed_history` makes of a task history.
use terminal_status_panel.Base.{
  ℕ, ◌+◌, ◌≤◌, ◌≡◌, refl, ap, sym, ◌∙◌, ◌⊎◌, inl, inr, Bool, Option, none, some, List, [], ◌∷◌,
  String, arith, ltb, is_some, count_of, Elem, Bool-cases, Option-cases, ltb→le, ltb→lt,
}
use terminal_status_panel.Docker.{RawTask, is_newer}
use terminal_status_panel.Docker.Tasks.{node_of}
use terminal_status_panel.Docker.Trouble.{
  History, no_history, failed_at, task_cause, add_failure, add_attempt, add_attempts,
  failed_history,
}

abbrev pub is_failure : ℕ → RawTask → Bool
is_failure now t = is_some (failed_at now t)

module _ (names : List (String × String)) (now : ℕ) where
  add_failure-fails :
      (t : RawTask) (at : ℕ) (h : History) → (add_failure names t at h).fails ≡ h.fails + 1
  unfolding add_failure
  add_failure-fails t at h = ground arith

  -- A failure leaves a newest one that is no older than itself and than the newest before.
  add_failure-newest :
      (t : RawTask) (at : ℕ) (h : History) (o : Option ℕ)
      → h.newest_at ≡ o
      → (c : ℕ) × ((add_failure names t at h).newest_at ≡ some c)
        × (at ≤ c)
        × ((b : ℕ) → o ≡ some b → b ≤ c)
  unfolding add_failure
  add_failure-newest t at h none e = rw e (at, refl, omega arith, λ b f. ground arith)
  add_failure-newest t at h (some best) e = elim (Bool-cases (ltb best at)) [
    | inl newer ↦
        rw (e, newer) (at, refl, omega arith, λ b f. ground (arith, ltb→lt best at newer, f))
    | inr older ↦ rw (e, older) (best, refl, ltb→le best at older, λ b f. ground (arith, f))
  ]

  add_attempts_nil : (h : History) → add_attempts names now [] h ≡ h
  unfolding add_attempts
  add_attempts_nil h = refl

  add_attempts_pass :
      (t : RawTask) (tasks : List RawTask) (h : History)
      → failed_at now t ≡ none
      → add_attempts names now (t ∷ tasks) h ≡ add_attempts names now tasks h
  unfolding add_attempts
  add_attempts_pass t tasks h e = ap (λ o. add_attempts names now tasks (add_attempt names t o h)) e

  add_attempts_failure :
      (t : RawTask) (tasks : List RawTask) (h : History) (at : ℕ)
      → failed_at now t ≡ some at
      → add_attempts names now (t ∷ tasks) h
        ≡ add_attempts names now tasks (add_failure names t at h)
  unfolding add_attempts
  add_attempts_failure t tasks h at e =
      ap (λ o. add_attempts names now tasks (add_attempt names t o h)) e

  add_attempts-fails :
      (tasks : List RawTask) (h : History)
      → (add_attempts names now tasks h).fails ≡ h.fails + count_of (is_failure now) tasks
  add_attempts-fails [] h = rw (add_attempts_nil h) (omega arith)
  add_attempts-fails (t ∷ tasks) h = elim (Option-cases (failed_at now t)) [
    | inl e ↦ rw (add_attempts_pass t tasks h e, e) (add_attempts-fails tasks h)
    | inr (at, e) ↦
        rw (add_attempts_failure t tasks h at e, e)
          (omega
            (arith, add_attempts-fails tasks (add_failure names t at h), add_failure-fails t at h))
  ]

  -- The number of failures is the number of the tasks that failed within the window.
  pub failed_history-fails :
      (tasks : List RawTask)
      → (failed_history (some tasks) names now).fails ≡ count_of (is_failure now) tasks
  unfolding failed_history
  failed_history-fails tasks = omega (arith, add_attempts-fails tasks no_history)

  -- The newest timestamp that the loop keeps never gets older.
  add_attempts-newest :
      (tasks : List RawTask) (h : History) (b : ℕ)
      → h.newest_at ≡ some b
      → (c : ℕ) × ((add_attempts names now tasks h).newest_at ≡ some c) × (b ≤ c)
  add_attempts-newest [] h b e = rw (add_attempts_nil h) (b, e, omega arith)
  add_attempts-newest (t ∷ tasks) h b e = elim (Option-cases (failed_at now t)) [
    | inl none_at ↦ rw (add_attempts_pass t tasks h none_at) (add_attempts-newest tasks h b e)
    | inr (at, failed) ↦ rw (add_attempts_failure t tasks h at failed) (
        let (c, f, own, keeps) = add_failure-newest t at h (some b) e in
        let (d, g, le) = add_attempts-newest tasks (add_failure names t at h) c f in
        (d, g, omega (arith, keeps b refl, le)))
  ]

  -- No failure of the tasks is newer than what the loop keeps.
  add_attempts-bound :
      (tasks : List RawTask) (h : History) (u : RawTask) (at : ℕ)
      → Elem u tasks
      → failed_at now u ≡ some at
      → (c : ℕ) × ((add_attempts names now tasks h).newest_at ≡ some c) × (at ≤ c)
  add_attempts-bound [] h u at m failed = absurd m
  add_attempts-bound (t ∷ tasks) h u at (inl same) failed =
      rw (add_attempts_failure t tasks h at (ap (failed_at now) (sym same) ∙ failed)) (
        let (c, f, own, keeps) = add_failure-newest t at h h.newest_at refl in
        let (d, g, le) = add_attempts-newest tasks (add_failure names t at h) c f in
        (d, g, omega (arith, own, le)))
  add_attempts-bound (t ∷ tasks) h u at (inr m) failed = elim (Option-cases (failed_at now t)) [
    | inl e ↦ rw (add_attempts_pass t tasks h e) (add_attempts-bound tasks h u at m failed)
    | inr (b, e) ↦
        rw (add_attempts_failure t tasks h b e)
          (add_attempts-bound tasks (add_failure names t b h) u at m failed)
  ]

-- The task is one of those that failed within the window, at that time, and the history has its
-- cause and its node.
abbrev pub IsReported : List (String × String) → ℕ → List RawTask → History → RawTask → ℕ → Type 0
IsReported names now tasks h t at =
    Elem t tasks
    × (failed_at now t ≡ some at)
    × (h.newest_at ≡ some at)
    × (h.cause ≡ task_cause t)
    × (h.node ≡ node_of names t)

-- The loop's variables for the newest failure are the same.
abbrev SameNewest : History → History → Type 0
SameNewest h h' = (h'.newest_at ≡ h.newest_at) × (h'.cause ≡ h.cause) × (h'.node ≡ h.node)

module _ (names : List (String × String)) (now : ℕ) where
  IsReported-add :
      (t u : RawTask) (tasks : List RawTask) (h : History) (at : ℕ)
      → IsReported names now tasks h u at
      → IsReported names now (t ∷ tasks) h u at
  IsReported-add t u tasks h at (m, f, n, c, o) = (inr m, f, n, c, o)

  add_failure-IsReported :
      (t : RawTask) (tasks : List RawTask) (h h' : History) (at : ℕ)
      → failed_at now t ≡ some at
      → SameNewest (add_failure names t at h) h'
      → SameNewest h h' ⊎ IsReported names now (t ∷ tasks) h' t at
  unfolding add_failure
  add_failure-IsReported t tasks h h' at failed (n, c, o) =
      elim (Bool-cases (is_newer h.newest_at at)) [
        | inl e ↦ inr (inl refl, failed, n ∙ rw e, c ∙ rw e, o ∙ rw e)
        | inr e ↦ inl (n ∙ rw e, c ∙ rw e, o ∙ rw e)
      ]

  -- What the loop keeps in the end, it had in the beginning, or it has of one of the tasks.
  add_attempts-IsReported :
      (tasks : List RawTask) (h : History)
      → SameNewest h (add_attempts names now tasks h)
        ⊎ ((t : RawTask) × (at : ℕ) × IsReported names now tasks
              (add_attempts names now tasks h)
              t
              at)
  add_attempts-IsReported [] h = rw (add_attempts_nil names now h) (inl (refl, refl, refl))
  add_attempts-IsReported (t ∷ tasks) h = elim (Option-cases (failed_at now t)) [
    | inl e ↦ rw (add_attempts_pass names now t tasks h e) (elim (add_attempts-IsReported tasks h) [
      | inl same ↦ inl same
      | inr (u, at, r) ↦ inr (u, at, IsReported-add t u tasks (add_attempts names now tasks h) at r)
    ])
    | inr (b, e) ↦
        let h' = add_attempts names now tasks (add_failure names t b h) in
        rw (add_attempts_failure names now t tasks h b e)
          (elim (add_attempts-IsReported tasks (add_failure names t b h)) [
            | inl same ↦ elim (add_failure-IsReported t tasks h h' b e same) [
              | inl kept ↦ inl kept
              | inr r ↦ inr (t, b, r)
            ]
            | inr (u, at, r) ↦ inr (u, at, IsReported-add t u tasks h' at r)
          ])
  ]

  -- If a task of the listing failed within the window, then the history has the cause and the node of
  -- a task that did, and no task that failed within the window did so later.
  pub failed_history-newest :
      (tasks : List RawTask) (u : RawTask) (at : ℕ)
      → Elem u tasks
      → failed_at now u ≡ some at
      → (t : RawTask) × (newest : ℕ) × IsReported names now tasks
          (failed_history (some tasks) names now)
          t
          newest
        × ((v : RawTask) (b : ℕ) → Elem v tasks → failed_at now v ≡ some b → b ≤ newest)
  unfolding failed_history
  failed_history-newest tasks u at m failed = elim (add_attempts-IsReported tasks no_history) [
    | inl (n, c, o) ↦
        let (b, e, le) = add_attempts-bound names now tasks no_history u at m failed in
        absurd (ground (arith, n, e))
    | inr (t, newest, (m', f, n, c, o)) ↦ (
      t,
      newest,
      (m', f, n, c, o),
      λ v b w g.
          let (d, e, le) = add_attempts-bound names now tasks no_history v b w g in
          ground (arith, n, e, le),
    )
  ]

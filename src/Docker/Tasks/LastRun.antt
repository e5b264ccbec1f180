-- ===== src/Docker/Tasks/LastRun.antt =====
-- docker.py: which run `_last_run` reports.
use terminal_status_panel.Base.{
  ℕ, ◌-◌, ◌≤◌, ◌≡◌, refl, ap, sym, subst, ◌∙◌, ◌⊎◌, inl, inr, Option, none, some, List, [], ◌∷◌,
  String, arith, ltb, ltb→le, ltb→lt, Elem, Bool-cases,
}
use terminal_status_panel.Docker.{RawTask, is_newer}
use terminal_status_panel.Docker.Tasks.{
  state_of, time_of, newer_task, newest_task, node_of, last_run,
}

-- The task kept, with its timestamp, is no older than this time.
abbrev IsSince : Option (RawTask × ℕ) → ℕ → Type 0
IsSince best b = (p : RawTask × ℕ) × (best ≡ some p) × (b ≤ p.1)

newer_task-kept :
    (t : RawTask) (o : Option ℕ) (q : RawTask × ℕ) (b : ℕ)
    → b ≤ q.1
    → IsSince (newer_task t o (some q)) b
unfolding newer_task
newer_task-kept t none q b h = (q, refl, h)
newer_task-kept t (some at) q b h = elim (Bool-cases (ltb q.1 at)) [
  | inl e ↦ rw e ((t, at), refl, omega (arith, h, ltb→lt q.1 at e))
  | inr e ↦ rw e (q, refl, h)
]

newer_task-own :
    (t : RawTask) (at : ℕ) (best : Option (RawTask × ℕ)) → IsSince (newer_task t (some at) best) at
unfolding newer_task
newer_task-own t at none = ((t, at), refl, omega arith)
newer_task-own t at (some q) = elim (Bool-cases (ltb q.1 at)) [
  | inl e ↦ rw e ((t, at), refl, omega arith)
  | inr e ↦ rw e (q, refl, ltb→le q.1 at e)
]

newest_task-kept :
    (tasks : List RawTask) (best : Option (RawTask × ℕ)) (b : ℕ)
    → IsSince best b
    → IsSince (newest_task tasks best) b
unfolding newest_task
newest_task-kept [] best b h = h
newest_task-kept (t ∷ tasks) best b (q, e, h) =
    newest_task-kept tasks (newer_task t t.timestamp best) b
      (rw e (newer_task-kept t t.timestamp q b h))

newest_task-bound :
    (tasks : List RawTask) (best : Option (RawTask × ℕ)) (u : RawTask) (b : ℕ)
    → Elem u tasks
    → u.timestamp ≡ some b
    → IsSince (newest_task tasks best) b
unfolding newest_task
newest_task-bound [] best u b m e = absurd m
newest_task-bound (t ∷ tasks) best u b (inl same) e =
    newest_task-kept tasks (newer_task t t.timestamp best) b (
      subst (λ o. IsSince (newer_task t o best) b)
        (sym (ap (λ (x : RawTask). x.timestamp) (sym same) ∙ e)) (newer_task-own t b best))
newest_task-bound (t ∷ tasks) best u b (inr m) e =
    newest_task-bound tasks (newer_task t t.timestamp best) u b m e

-- The task kept is one of these, with its timestamp.
abbrev IsDated : List RawTask → Option (RawTask × ℕ) → Type 0
IsDated tasks best =
    (t : RawTask) × (at : ℕ) × Elem t tasks × (t.timestamp ≡ some at) × (best ≡ some (t, at))

newer_task-IsDated :
    (t : RawTask) (tasks : List RawTask) (o : Option ℕ) (best r : Option (RawTask × ℕ))
    → t.timestamp ≡ o
    → r ≡ newer_task t o best
    → (r ≡ best) ⊎ IsDated (t ∷ tasks) r
unfolding newer_task
newer_task-IsDated t tasks none best r e h = inl h
newer_task-IsDated t tasks (some at) best r e h = elim (Bool-cases (is_newer (time_of best) at)) [
  | inl f ↦ inr (t, at, inl refl, e, h ∙ rw f)
  | inr f ↦ inl (h ∙ rw f)
]

newest_task-IsDated :
    (tasks : List RawTask) (best : Option (RawTask × ℕ))
    → (newest_task tasks best ≡ best) ⊎ IsDated tasks (newest_task tasks best)
unfolding newest_task
newest_task-IsDated [] best = inl refl
newest_task-IsDated (t ∷ tasks) best =
    elim (newest_task-IsDated tasks (newer_task t t.timestamp best)) [
      | inl e ↦
          newer_task-IsDated t tasks t.timestamp best
            (newest_task tasks (newer_task t t.timestamp best)) refl e
      | inr (u, at, m, e, f) ↦ inr (u, at, inr m, e, f)
    ]

-- If a task of the listing has a readable timestamp, then the last run reported is a task of the
-- listing that no task with a readable timestamp is newer than, whatever state it ended in: with
-- its state, its node, and the time since then as its age.
pub last_run-newest :
    (tasks : List RawTask) (names : List (String × String)) (now : ℕ) (u : RawTask) (b : ℕ)
    → Elem u tasks
    → u.timestamp ≡ some b
    → (t : RawTask) × (at : ℕ) × Elem t tasks
      × (t.timestamp ≡ some at)
      × (last_run (some tasks) names now
          ≡ some (record {
            state = state_of t;
            age_seconds = some (now - at);
            node = node_of names t;
          }))
      × ((v : RawTask) (c : ℕ) → Elem v tasks → v.timestamp ≡ some c → c ≤ at)
unfolding last_run
last_run-newest tasks names now u b m e = elim (newest_task-IsDated tasks none) [
  | inl nothing ↦
      let (p, f, le) = newest_task-bound tasks none u b m e in absurd (ground (arith, nothing, f))
  | inr (t, at, m', f, found) ↦ (
    t,
    at,
    m',
    f,
    rw (last_run, found),
    λ v c w g.
        let (p, h, le) = newest_task-bound tasks none v c w g in ground (arith, found, h, le),
  )
]

-- ===== src/Budget/Expiry.antt =====
-- budget.py: the joins in deadline order expire exactly the tasks that miss their deadline.
use terminal_status_panel.Base.{
  ℕ, ◌≤◌, ◌≡◌, refl, ◌∙◌, Bool, true, false, not, ◌&&◌, List, [], ◌∷◌, arith, String, All,
  if◌then◌else◌,
}
use terminal_status_panel.Base.Sorting.{IsSorted}
use terminal_status_panel.Budget.{
  Ending, returns, raises, hangs, alive_at, join_until, Task, Limits, deadline_of, join_loop,
}

module _ {V : Type 0} where
  -- The task ends by its own deadline.
  abbrev pub on_time : Limits → Task V → Bool
  on_time l t = not (alive_at (deadline_of l t.name) t.ending)

  -- A join that starts before the deadline ends by it, and finds the thread alive exactly when
  -- the thread misses the deadline.
  join_until_lem :
      (now deadline : ℕ) (e : Ending V)
      → now ≤ deadline
      → (join_until now deadline e ≤ deadline)
        × (now ≤ join_until now deadline e)
        × (alive_at (join_until now deadline e) e ≡ alive_at deadline e)
  join_until_lem now deadline (returns at v) h = (omega arith, omega arith, ground arith)
  join_until_lem now deadline (raises at e) h = (omega arith, omega arith, ground arith)
  join_until_lem now deadline hangs h = (omega arith, omega arith, refl)

  abbrev pub late_names : Limits → List (Task V) → List String
  late_names l [] = []
  late_names l (t ∷ tasks) = if on_time l t then late_names l tasks else t.name ∷ late_names l tasks

  -- An ended thread stays ended.
  pub alive_at_later :
      (now later : ℕ) (e : Ending V)
      → now ≤ later
      → alive_at now e ≡ false
      → alive_at later e ≡ false
  alive_at_later now later (returns at v) h a = ground arith
  alive_at_later now later (raises at e) h a = ground arith
  alive_at_later now later hangs h a = cc

  All-deadline_trans :
      (l : Limits) (m n : ℕ) (tasks : List (Task V))
      → m ≤ n
      → All (λ (t : Task V). n ≤ deadline_of l t.name) tasks
      → All (λ (t : Task V). m ≤ deadline_of l t.name) tasks
  All-deadline_trans l m n [] h a = tt
  All-deadline_trans l m n (t ∷ tasks) h a = (omega arith, All-deadline_trans l m n tasks h a.1)

  -- Over a list in deadline order the loop expires those that miss their deadline, ends by any
  -- time that no deadline passes, and not before a task that is on time has ended.
  pub join_loop_lem :
      (l : Limits) (now last : ℕ) (tasks : List (Task V))
      → IsSorted (λ (t : Task V). deadline_of l t.name) tasks
      → All (λ (t : Task V). now ≤ deadline_of l t.name) tasks
      → All (λ (t : Task V). deadline_of l t.name ≤ last) tasks
      → now ≤ last
      → ((join_loop l now tasks).0 ≡ late_names l tasks)
        × ((join_loop l now tasks).1 ≤ last)
        × (now ≤ (join_loop l now tasks).1)
        × All
            (λ (t : Task V). on_time l t && alive_at (join_loop l now tasks).1 t.ending ≡ false)
            tasks
  unfolding join_loop
  join_loop_lem l now last [] s a b h = (refl, h, omega arith, tt)
  join_loop_lem l now last (t ∷ tasks) s a b h =
      let deadline = deadline_of l t.name in
      let next = join_until now deadline t.ending in
      let j = join_until_lem now deadline t.ending a.0 in
      let rest =
        join_loop_lem l next last tasks s.1 (All-deadline_trans l next deadline tasks j.0 s.0) b.1
          (omega arith) in
      (
        ground arith,
        rest.1,
        omega arith,
        (ended (alive_at deadline t.ending) refl j.2 rest.2, rest.3),
      )
    where
      ended :
          (alive : Bool)
          → alive_at (deadline_of l t.name) t.ending ≡ alive
          → alive_at (join_until now (deadline_of l t.name) t.ending) t.ending
            ≡ alive_at (deadline_of l t.name) t.ending
          → join_until now (deadline_of l t.name) t.ending ≤ (join_loop l now (t ∷ tasks)).1
          → on_time l t && alive_at (join_loop l now (t ∷ tasks)).1 t.ending ≡ false
      ended true e same le = rw e
      ended false e same le =
          rw (e, alive_at_later _ (join_loop l now (t ∷ tasks)).1 t.ending le (same ∙ e))

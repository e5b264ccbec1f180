-- ===== src/Budget.antt =====
-- src/terminal_status_panel/budget.py: named callables run at once under one deadline.
-- Times are readings of the monotonic clock in microseconds. What a thread does is given by its
-- ending, which is all that the code observes of it; the order in which threads reach the result
-- dicts is not modelled, so those are listed in the order of the tasks.
pub mod Expiry
pub mod Outcome
pub mod Grace
mod Tests
use terminal_status_panel.Base.{
  ℕ, ◌+◌, max, min, Bool, true, false, not, ◌&&◌, ◌||◌, Option, none, some, List, [], ◌∷◌, ◌++◌,
  map, String, ltb, leb, filter, mem, str_eq, if◌then◌else◌,
}
use terminal_status_panel.Base.Dict.{lookup, has_key, without}
use terminal_status_panel.Base.Sorting.{sort}

abbrev pub exit_grace : ℕ
exit_grace = 250000

-- When and how a callable ends: with a value, with an exception's text, or not at all.
pub data Ending (V : Type 0) : Type 0 where
  returns : ℕ → V → Ending V
  raises : ℕ → String → Ending V
  hangs : Ending V

module _ {V : Type 0} where
  -- `thread.is_alive()` at a time.
  abbrev pub alive_at : ℕ → Ending V → Bool
  alive_at now (returns at v) = ltb now at
  alive_at now (raises at e) = ltb now at
  alive_at now hangs = true

  -- `thread.join(max(0.0, deadline - time.monotonic()))`: the time at which it returns.
  abbrev pub join_until : ℕ → ℕ → Ending V → ℕ
  join_until now deadline (returns at v) = max now (min at (max now deadline))
  join_until now deadline (raises at e) = max now (min at (max now deadline))
  join_until now deadline hangs = max now deadline

pub record Task (V : Type 0) : Type 0 where
  pub name : String
  pub ending : Ending V

pub record BudgetResult (V : Type 0) : Type 0 where
  pub results : List (String × V)
  pub truncated : List String
  pub failed : List (String × String)

-- The keyword arguments and the clock's reading once every thread is started.
pub record Limits : Type 0 where
  pub budget : ℕ
  pub timeouts : List (String × ℕ)
  pub started : ℕ

abbrev or_budget : ℕ → Option ℕ → ℕ
or_budget budget none = budget
or_budget budget (some timeout) = timeout

pub deadline_of : Limits → String → ℕ
unfolding lookup
deadline_of l name =
    min (l.started + l.budget) (l.started + or_budget l.budget (lookup name l.timeouts))

module _ {V : Type 0} where
  -- What `runner` has put into `results` and into `failed` by a time.
  pub returned_by : ℕ → List (Task V) → List (String × V)
  returned_by now [] = []
  returned_by now (t ∷ tasks) = elim t.ending [
    | returns at v ↦
        if leb at now then (t.name, v) ∷ returned_by now tasks else returned_by now tasks
    | raises at e ↦ returned_by now tasks
    | hangs ↦ returned_by now tasks
  ]

  pub raised_by : ℕ → List (Task V) → List (String × String)
  raised_by now [] = []
  raised_by now (t ∷ tasks) = elim t.ending [
    | returns at v ↦ raised_by now tasks
    | raises at e ↦ if leb at now then (t.name, e) ∷ raised_by now tasks else raised_by now tasks
    | hangs ↦ raised_by now tasks
  ]

  abbrev pub by_deadline : Limits → Task V → Task V → Bool
  by_deadline l a b = leb (deadline_of l a.name) (deadline_of l b.name)

  -- The loop of joins: the expired names, and the time at its end.
  pub join_loop : Limits → ℕ → List (Task V) → List String × ℕ
  join_loop l now [] = ([], now)
  join_loop l now (t ∷ tasks) =
      let next = join_until now (deadline_of l t.name) t.ending in
      let (expired, end) = join_loop l next tasks in
      (if alive_at next t.ending then t.name ∷ expired else expired, end)

  abbrev pub still_alive : ℕ → List (Task V) → List (Task V)
  still_alive now = filter (λ (t : Task V). alive_at now t.ending)

  -- The result, the new `_stragglers`, and the time at which the call returns.
  pub run_with_budget : Limits → List (Task V) → List (Task V) → BudgetResult V × List (Task V) × ℕ
  run_with_budget l stragglers tasks =
      let (expired, now) = join_loop l l.started (sort (by_deadline l) tasks) in
      let results = returned_by now tasks in
      let failed = raised_by now tasks in
      let unreported = λ (name : String).
        mem name expired || (not (has_key name results) && not (has_key name failed)) in
      (
        record {
          results = without expired results;
          truncated = filter unreported (map (λ (t : Task V). t.name) tasks);
          failed = without expired failed;
        },
        still_alive now stragglers ++ still_alive now tasks,
        now,
      )

  -- `_join_stragglers`: the joins of one shared grace period, and the time at its end.
  pub join_all : ℕ → ℕ → List (Task V) → ℕ
  join_all now deadline [] = now
  join_all now deadline (t ∷ threads) = join_all (join_until now deadline t.ending) deadline threads

  -- The end of the grace period, and the emptied list.
  pub join_stragglers : ℕ → List (Task V) → ℕ × List (Task V)
  join_stragglers now stragglers =
      (join_all now (now + exit_grace) (still_alive now stragglers), [])

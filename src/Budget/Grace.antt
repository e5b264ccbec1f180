-- ===== src/Budget/Grace.antt =====
-- budget.py: the list of stragglers, and the grace period at exit.
use terminal_status_panel.Base.{
  ℕ, ◌+◌, ◌≤◌, ◌≡◌, ◌⊎◌, refl, sym, Bool, true, false, List, [], ◌∷◌, ◌++◌, arith, filter,
  filter-append, All, Bool-cases, inl, inr,
}
use terminal_status_panel.Budget.{
  Ending, returns, raises, hangs, alive_at, join_until, Task, Limits, still_alive, run_with_budget,
  join_all, join_stragglers, exit_grace,
}
use terminal_status_panel.Budget.Expiry.{alive_at_later}

module _ {V : Type 0} where
  All-filter :
      (now : ℕ) (tasks : List (Task V))
      → All (λ (t : Task V). alive_at now t.ending ≡ true) (still_alive now tasks)
  All-filter now [] = tt
  All-filter now (t ∷ tasks) = elim (Bool-cases (alive_at now t.ending)) [
    | inl e ↦ rw e (e, All-filter now tasks)
    | inr e ↦ rw e (All-filter now tasks)
  ]

  -- After every call, and not only after a timeout, the list of stragglers holds exactly the
  -- threads, of earlier calls and of this one, that are alive when it returns.
  pub run_with_budget-stragglers :
      (l : Limits) (stragglers tasks : List (Task V))
      → ((run_with_budget l stragglers tasks).1
          ≡ still_alive (run_with_budget l stragglers tasks).2 (stragglers ++ tasks))
        × All
            (λ (t : Task V). alive_at (run_with_budget l stragglers tasks).2 t.ending ≡ true)
            (run_with_budget l stragglers tasks).1
  unfolding run_with_budget
  run_with_budget-stragglers l stragglers tasks =
      let now = (run_with_budget l stragglers tasks).2 in
      let whole = sym (filter-append (λ (t : Task V). alive_at now t.ending) stragglers tasks) in
      (whole, rw whole (All-filter now (stragglers ++ tasks)))

  join_until-le :
      (now deadline : ℕ) (e : Ending V)
      → now ≤ deadline
      → (now ≤ join_until now deadline e)
        × (join_until now deadline e ≤ deadline)
        × ((alive_at (join_until now deadline e) e ≡ false)
            ⊎ (join_until now deadline e ≡ deadline))
  join_until-le now deadline (returns at v) h = (omega arith, omega arith, ground arith)
  join_until-le now deadline (raises at e) h = (omega arith, omega arith, ground arith)
  join_until-le now deadline hangs h = (omega arith, omega arith, inr (omega arith))

  join_all-le :
      (now deadline : ℕ) (threads : List (Task V))
      → now ≤ deadline
      → (now ≤ join_all now deadline threads)
        × (join_all now deadline threads ≤ deadline)
        × All
            (λ (t : Task V).
              (alive_at (join_all now deadline threads) t.ending ≡ false)
              ⊎ (join_all now deadline threads ≡ deadline))
            threads
  unfolding join_all
  join_all-le now deadline [] h = (omega arith, h, tt)
  join_all-le now deadline (t ∷ threads) h =
      let next = join_until now deadline t.ending in
      let (after, within, waited) = join_until-le now deadline t.ending h in
      let (later, ends, rest) = join_all-le next deadline threads within in
      (omega arith, ends, (first waited later ends, rest))
    where
      first :
          (alive_at (join_until now deadline t.ending) t.ending ≡ false)
            ⊎ (join_until now deadline t.ending ≡ deadline)
          → join_until now deadline t.ending
            ≤ join_all (join_until now deadline t.ending) deadline threads
          → join_all (join_until now deadline t.ending) deadline threads ≤ deadline
          → (alive_at (join_all (join_until now deadline t.ending) deadline threads) t.ending
              ≡ false)
            ⊎ (join_all (join_until now deadline t.ending) deadline threads ≡ deadline)
      first (inl done) later ends = inl (alive_at_later _ _ t.ending later done)
      first (inr full) later ends = inr (omega arith)

  All-of_filter {κ} :
      (P : Task V → Type κ) (q : Task V → Bool) (tasks : List (Task V))
      → ((t : Task V) → q t ≡ false → P t)
      → All P (filter q tasks)
      → All P tasks
  All-of_filter P q [] other h = tt
  All-of_filter P q (t ∷ tasks) other h = elim (Bool-cases (q t)) [
    | inl e ↦
        let kept : All P (t ∷ filter q tasks) = rw e at h in
        (kept.0, All-of_filter P q tasks other kept.1)
    | inr e ↦ (other t e, All-of_filter P q tasks other (rw e at h))
  ]

  -- At exit the abandoned threads together get no more than the grace period, and the list is
  -- emptied; a thread that is still running after that has used up the whole of it.
  pub join_stragglers-le :
      (now : ℕ) (stragglers : List (Task V))
      → ((join_stragglers now stragglers).0 ≤ now + exit_grace)
        × ((join_stragglers now stragglers).1 ≡ [])
        × All
            (λ (t : Task V).
              (alive_at (join_stragglers now stragglers).0 t.ending ≡ false)
              ⊎ ((join_stragglers now stragglers).0 ≡ now + exit_grace))
            stragglers
  unfolding join_stragglers
  join_stragglers-le now stragglers =
      let deadline = now + exit_grace in
      let threads = still_alive now stragglers in
      let (later, ends, waited) = join_all-le now deadline threads (omega arith) in
      (
        ends,
        refl,
        All-of_filter
            (λ (t : Task V).
              (alive_at (join_all now deadline threads) t.ending ≡ false)
              ⊎ (join_all now deadline threads ≡ deadline))
            (λ t. alive_at now t.ending) stragglers
            (λ t done. inl (alive_at_later now (join_all now deadline threads) t.ending later done))
            waited,
      )

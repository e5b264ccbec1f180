-- ===== src/Render/Verdict/Jobs.antt =====
-- verdict.py: a row of scheduled jobs reports its newest run.
use terminal_status_panel.Base.{
  ℕ, ◌≡◌, refl, ap, sym, subst, Text, ◌⊎◌, inl, inr, true, false, Option, none, some, List, [], ◌∷◌,
  String, arith, All, all, Elem, if◌then◌else◌, Bool-cases,
}
use terminal_status_panel.Model.Docker.{JobRun, run_failed, ServiceStatus}
use terminal_status_panel.Model.Health.{ClusterService}
use terminal_status_panel.Render.Verdict.{
  Icon, dead, unknown, job, younger, newest_run, last_runs, resting_cell, job_cell, counts,
  verdict_icon,
}

-- No run of the list is younger than this one.
abbrev pub IsNewest : JobRun → List JobRun → Type 0
IsNewest r = All (λ (x : JobRun). younger x.age_seconds r.age_seconds ≡ false)

younger_irrefl : (a : Option ℕ) → younger a a ≡ false
younger_irrefl none = refl
younger_irrefl (some a) = ground arith

younger_trans : (a b c : Option ℕ) → younger a b ≡ false → younger b c ≡ false → younger a c ≡ false
younger_trans none b c h k = refl
younger_trans (some a) none c h k = cc
younger_trans (some a) (some b) none h k = cc
younger_trans (some a) (some b) (some c) h k = ground arith

younger_asym : (a b : Option ℕ) → younger a b ≡ true → younger b a ≡ false
younger_asym none b h = cc
younger_asym (some a) none h = refl
younger_asym (some a) (some b) h = ground arith

newest_run_replaced :
    (best r : JobRun) (runs : List JobRun)
    → younger r.age_seconds best.age_seconds ≡ true
    → newest_run best (r ∷ runs) ≡ newest_run r runs
unfolding newest_run
newest_run_replaced best r runs e = ap (λ b. newest_run (if b then r else best) runs) e

newest_run_kept :
    (best r : JobRun) (runs : List JobRun)
    → younger r.age_seconds best.age_seconds ≡ false
    → newest_run best (r ∷ runs) ≡ newest_run best runs
unfolding newest_run
newest_run_kept best r runs e = ap (λ b. newest_run (if b then r else best) runs) e

newest_run_single : (best : JobRun) → newest_run best [] ≡ best
unfolding newest_run
newest_run_single best = refl

-- What `newest_run` gives is no older than the best so far and than each run of the list.
newest_run-le :
    (best : JobRun) (runs : List JobRun)
    → (younger best.age_seconds (newest_run best runs).age_seconds ≡ false)
      × IsNewest (newest_run best runs) runs
newest_run-le best [] = (rw newest_run_single (younger_irrefl best.age_seconds), tt)
newest_run-le best (r ∷ runs) = elim (Bool-cases (younger r.age_seconds best.age_seconds)) [
  | inl e ↦
      let (a, rest) = newest_run-le r runs in
      subst
        (λ (x : JobRun). (younger best.age_seconds x.age_seconds ≡ false) × IsNewest x (r ∷ runs))
        (sym (newest_run_replaced best r runs e))
        (
          younger_trans best.age_seconds r.age_seconds (newest_run r runs).age_seconds
              (younger_asym r.age_seconds best.age_seconds e) a,
          (a, rest),
        )
  | inr e ↦
      let (a, rest) = newest_run-le best runs in
      subst
        (λ (x : JobRun). (younger best.age_seconds x.age_seconds ≡ false) × IsNewest x (r ∷ runs))
        (sym (newest_run_kept best r runs e))
        (
          a,
          (
            younger_trans r.age_seconds best.age_seconds (newest_run best runs).age_seconds e a,
            rest,
          ),
        )
]

newest_run-Elem : (best : JobRun) (runs : List JobRun) → Elem (newest_run best runs) (best ∷ runs)
newest_run-Elem best [] = inl (newest_run_single best)
newest_run-Elem best (r ∷ runs) = elim (Bool-cases (younger r.age_seconds best.age_seconds)) [
  | inl e ↦
      subst (λ x. Elem x (best ∷ r ∷ runs)) (sym (newest_run_replaced best r runs e))
        (inr (newest_run-Elem r runs))
  | inr e ↦
      subst (λ x. Elem x (best ∷ r ∷ runs)) (sym (newest_run_kept best r runs e))
        (skip (newest_run-Elem best runs))
]
  where
    skip : {x : JobRun} → Elem x (best ∷ runs) → Elem x (best ∷ r ∷ runs)
    skip (inl same) = inl same
    skip (inr later) = inr (inr later)

resting_cell_cases :
    (runs : List JobRun)
    → ((runs ≡ []) × (some (resting_cell runs).0 ≡ some unknown))
      ⊎ ((r : JobRun) × Elem r runs
          × IsNewest r runs
          × (some (resting_cell runs).0 ≡ some (if run_failed r then dead else job)))
unfolding resting_cell
resting_cell_cases [] = inl (refl, refl)
resting_cell_cases (r ∷ runs) =
    let (oldest, rest) = newest_run-le r runs in
    inr (newest_run r runs, newest_run-Elem r runs, (oldest, rest), ground arith)

job_cell-idle :
    (services : List ServiceStatus)
    → all (λ (s : ServiceStatus). s.job) services ≡ true
    → (counts services 0).0 ≡ 0
    → job_cell services ≡ some (resting_cell (last_runs services))
unfolding job_cell
job_cell-idle services jobs idle = rw (jobs, idle)

verdict_icon-job :
    (s : ServiceStatus) (services : List ServiceStatus) (kind : Option String)
    (cluster : Option ClusterService) (node_count : ℕ) (cell : Icon × Text)
    → job_cell (s ∷ services) ≡ some cell
    → verdict_icon (s ∷ services) kind cluster node_count ≡ some cell.0
unfolding verdict_icon
verdict_icon-job s services kind cluster node_count cell e = rw (e, verdict_icon)

-- A row of jobs of which none is running: with no run on record it is unknown; otherwise it is
-- dead or resting as a run of the row failed or not that no run of the row is younger than.
pub verdict_icon-jobs :
    (s : ServiceStatus) (services : List ServiceStatus) (kind : Option String)
    (cluster : Option ClusterService) (node_count : ℕ)
    → all (λ (s : ServiceStatus). s.job) (s ∷ services) ≡ true
    → (counts (s ∷ services) 0).0 ≡ 0
    → ((last_runs (s ∷ services) ≡ [])
        × (verdict_icon (s ∷ services) kind cluster node_count ≡ some unknown))
      ⊎ ((r : JobRun) × Elem r (last_runs (s ∷ services))
          × IsNewest r (last_runs (s ∷ services))
          × (verdict_icon (s ∷ services) kind cluster node_count
              ≡ some (if run_failed r then dead else job)))
verdict_icon-jobs s services kind cluster node_count jobs idle =
    rw
      (verdict_icon-job s services kind cluster node_count (resting_cell (last_runs (s ∷ services)))
        (job_cell-idle (s ∷ services) jobs idle))
      (resting_cell_cases (last_runs (s ∷ services)))

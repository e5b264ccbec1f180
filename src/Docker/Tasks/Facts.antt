-- ===== src/Docker/Tasks/Facts.antt =====
-- docker.py: what `_service_tasks` makes of a task listing.
use terminal_status_panel.Base.{
  ◌+◌, ◌≡◌, refl, sym, ◌∙◌, inl, inr, Bool, some, List, [], ◌∷◌, String, arith, length, length-snoc,
  nonempty, sum_of, Option-cases,
}
use terminal_status_panel.Base.Sorting.{sort, sum_of-sort}
use terminal_status_panel.Docker.{RawTask, node_name}
use terminal_status_panel.Docker.Tasks.{
  TaskFacts, no_facts, node_leb, add_task, add_tasks, service_tasks, state_of,
}

length-sort :
    {A : Type 0} (before : A → A → Bool) (xs : List A) → length (sort before xs) ≡ length xs
length-sort before xs =
    length_ones (sort before xs) ∙ sum_of-sort (λ x. 1) before xs ∙ sym (length_ones xs)
  where
    length_ones : {A : Type 0} (ys : List A) → length ys ≡ sum_of (λ y. 1) ys
    length_ones [] = refl
    length_ones (y ∷ ys) = omega (arith, length_ones ys)

module _ (names : List (String × String)) where
  add_task-total :
      (t : RawTask) (f : TaskFacts)
      → length (add_task names t f).tasks + (add_task names t f).unassigned
        ≡ length f.tasks + f.unassigned + 1
  unfolding add_task
  add_task-total t f = elim (Option-cases (nonempty t.node_id)) [
    | inl e ↦ rw (add_task, e) (omega arith)
    | inr (i, e) ↦
        rw (add_task, e)
          (omega (
            arith,
            length-snoc f.tasks (record { node = some (node_name names i); state = state_of t }),
          ))
  ]

  add_tasks-total :
      (tasks : List RawTask) (f : TaskFacts)
      → length (add_tasks names tasks f).tasks + (add_tasks names tasks f).unassigned
        ≡ length f.tasks + f.unassigned + length tasks
  unfolding add_tasks
  add_tasks-total [] f = omega arith
  add_tasks-total (t ∷ tasks) f =
      omega (arith, add_tasks-total tasks (add_task names t f), add_task-total t f)

  -- Every task that is listed is either placed on a node or counted as unassigned, and none twice.
  pub service_tasks-total :
      (tasks : List RawTask)
      → length (service_tasks (some tasks) names).tasks
          + (service_tasks (some tasks) names).unassigned
        ≡ length tasks
  unfolding service_tasks
  service_tasks-total tasks = omega (
    arith,
    length-sort node_leb (add_tasks names tasks no_facts).tasks,
    add_tasks-total tasks no_facts,
  )

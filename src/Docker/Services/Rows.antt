-- ===== src/Docker/Services/Rows.antt =====
-- docker.py: the rows of local containers.
use terminal_status_panel.Base.{
  ℕ, ◌≤◌, ◌≡◌, refl, ap, sym, inl, inr, Option, none, some, List, [], ◌∷◌, map, String, arith, ◌==◌,
  length, count_of, count_of-le, Bool-cases, All,
}
use terminal_status_panel.Base.Sorting.{All-sort}
use terminal_status_panel.Model.Docker.{ServiceStatus, task_running}
use terminal_status_panel.Docker.{Container}
use terminal_status_panel.Docker.Containers.{Key}
use terminal_status_panel.Docker.Memory.{MemoryTotal, apply_memory}
use terminal_status_panel.Docker.Services.{
  Settings, task_of, is_up, group_service, group_rows, container_services,
}

count_of-task_of :
    (host : Option String) (containers : List Container)
    → count_of task_running (map (task_of host) containers) ≡ count_of is_up containers
unfolding task_running
count_of-task_of host [] = refl
count_of-task_of host (c ∷ containers) = elim (Bool-cases (is_up c)) [
  | inl e ↦ rw e (omega (arith, count_of-task_of host containers))
  | inr e ↦ rw e (count_of-task_of host containers)
]

length-map_tasks :
    (host : Option String) (containers : List Container)
    → length (map (task_of host) containers) ≡ length containers
length-map_tasks host [] = refl
length-map_tasks host (c ∷ containers) = omega (arith, length-map_tasks host containers)

-- As many tasks as are wanted, and as many running as the tasks say.
abbrev pub IsCounted : ServiceStatus → Type 0
IsCounted s =
    (s.desired_replicas ≡ some (length s.tasks))
    × (s.running_replicas ≡ count_of task_running s.tasks)
    × (s.running_replicas ≤ length s.tasks)

apply_memory-IsCounted :
    (s : ServiceStatus) (m : Option MemoryTotal) → IsCounted s → IsCounted (apply_memory s m)
unfolding apply_memory
apply_memory-IsCounted s none h = h
apply_memory-IsCounted s (some m) h = elim (Bool-cases (m.tasks == 0)) [
  | inl e ↦ rw e h
  | inr e ↦ rw e h
]

group_service-IsCounted :
    (settings : Settings) (host : Option String) (memory : List (String × MemoryTotal)) (key : Key)
    (first : Container) (rest : List Container)
    → IsCounted (group_service settings host memory key first rest)
unfolding group_service
group_service-IsCounted settings host memory key first rest = apply_memory-IsCounted _ _ (
  ap some (sym (length-map_tasks host (first ∷ rest))),
  sym (count_of-task_of host (first ∷ rest)),
  omega (arith, count_of-le is_up (first ∷ rest), length-map_tasks host (first ∷ rest)),
)

group_rows-IsCounted :
    (settings : Settings) (host : Option String) (memory : List (String × MemoryTotal))
    (groups : List (Key × List Container))
    → All IsCounted (group_rows settings host memory groups)
unfolding group_rows
group_rows-IsCounted settings host memory [] = tt
group_rows-IsCounted settings host memory ((key, []) ∷ groups) =
    group_rows-IsCounted settings host memory groups
group_rows-IsCounted settings host memory ((key, first ∷ rest) ∷ groups) = (
  group_service-IsCounted settings host memory key first rest,
  group_rows-IsCounted settings host memory groups,
)

-- Every row of the local containers wants as many replicas as it has tasks, its running replicas are
-- its running tasks, and they are no more than it wants.
pub container_services-IsCounted :
    (settings : Settings) (host : Option String) (now : ℕ) (containers : List Container)
    → All IsCounted (container_services settings host now containers).0
unfolding container_services
container_services-IsCounted settings host now containers =
    All-sort IsCounted _ _ (group_rows-IsCounted settings host _ _)

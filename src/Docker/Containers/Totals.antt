-- ===== src/Docker/Containers/Totals.antt =====
-- docker.py: whose memory `_container_groups` adds up.
use terminal_status_panel.Base.{
  ℕ, ◌+◌, ◌≡◌, ap, ◌∙◌, inl, inr, Bool, true, false, ◌&&◌, Option, none, some, List, [], ◌∷◌,
  String, arith, str_eq, filter, sum_of, Bool-cases, Option-cases, if◌then◌else◌,
}
use terminal_status_panel.Base.Dict.{lookup}
use terminal_status_panel.Docker.{Container}
use terminal_status_panel.Docker.Memory.{MemoryTotal, raw_state, container_memory, add_reading}
use terminal_status_panel.Docker.Memory.Totals.{
  held, held-record_memory, usage_of, readings_of, add_reading_lem,
}
use terminal_status_panel.Docker.Containers.{
  Listing, no_listing, swarm_service_of, is_shown, origin_of, key_of, add_container,
  container_groups,
}

-- The name under which the panel shows a container: its Swarm service, or else its project and
-- service, unless it is not shown at all.
abbrev pub owner : Container → Option String
owner c = elim (swarm_service_of c) [
  | none ↦ if is_shown c then some (origin_of (key_of c)) else none
  | some service ↦ some service
]

-- The container runs and is shown under this name.
abbrev pub runs_for : String → Container → Bool
runs_for name c =
    (elim (owner c) [ none ↦ false | some o ↦ str_eq o name ]) && str_eq (raw_state c) "running"

held-add_container :
    (now : ℕ) (c : Container) (l : Listing) (name : String)
    → held name (add_container now c l).memory ≡ (
        if runs_for name c
        then add_reading (container_memory c) (held name l.memory)
        else held name l.memory)
unfolding add_container
held-add_container now c l name = elim (Option-cases (swarm_service_of c)) [
  | inr (service, e) ↦ rw (e, add_container) (held-record_memory l.memory service name c)
  | inl e ↦ elim (Bool-cases (is_shown c)) [
    | inl shown ↦
        rw (e, add_container, shown) (held-record_memory l.memory (origin_of (key_of c)) name c)
    | inr hidden ↦ rw (e, add_container, hidden)
  ]
]

held-container_groups :
    (now : ℕ) (containers : List Container) (l : Listing) (name : String)
    → ((held name (container_groups now containers l).memory).usage
        ≡ (held name l.memory).usage + sum_of usage_of (filter (runs_for name) containers))
      × ((held name (container_groups now containers l).memory).tasks
          ≡ (held name l.memory).tasks + sum_of readings_of (filter (runs_for name) containers))
unfolding container_groups
held-container_groups now [] l name = (omega arith, omega arith)
held-container_groups now (c ∷ containers) l name = elim (Bool-cases (runs_for name c)) [
  | inl e ↦
      let m = held name l.memory in
      rw e (
        omega (
          arith,
          (held-container_groups now containers (add_container now c l) name).0,
          ap (λ (t : MemoryTotal). t.usage) (added e),
          (add_reading_lem c m).0,
        ),
        omega (
          arith,
          (held-container_groups now containers (add_container now c l) name).1,
          ap (λ (t : MemoryTotal). t.tasks) (added e),
          (add_reading_lem c m).1,
        ),
      )
  | inr e ↦ rw e (
    omega (
      arith,
      (held-container_groups now containers (add_container now c l) name).0,
      ap (λ (t : MemoryTotal). t.usage) (kept e),
    ),
    omega (
      arith,
      (held-container_groups now containers (add_container now c l) name).1,
      ap (λ (t : MemoryTotal). t.tasks) (kept e),
    ),
  )
]
  where
    added :
        runs_for name c ≡ true
        → held name (add_container now c l).memory
          ≡ add_reading (container_memory c) (held name l.memory)
    added e = held-add_container now c l name ∙ rw e

    kept : runs_for name c ≡ false → held name (add_container now c l).memory ≡ held name l.memory
    kept e = held-add_container now c l name ∙ rw e

-- The usage that the listing holds under a name is the sum of the usages of the running containers
-- that are shown under it, and its number of tasks is the number of those that could be read.
pub container_groups-memory :
    (now : ℕ) (containers : List Container) (name : String)
    → ((held name (container_groups now containers no_listing).memory).usage
        ≡ sum_of usage_of (filter (runs_for name) containers))
      × ((held name (container_groups now containers no_listing).memory).tasks
          ≡ sum_of readings_of (filter (runs_for name) containers))
unfolding lookup
container_groups-memory now containers name = (
  omega (arith, (held-container_groups now containers no_listing name).0),
  omega (arith, (held-container_groups now containers no_listing name).1),
)

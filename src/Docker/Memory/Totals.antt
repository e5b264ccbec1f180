-- ===== src/Docker/Memory/Totals.antt =====
-- docker.py: one container's memory added to what is held.
use text.Mathlib.TextEquality.{eq_iff}
use terminal_status_panel.Base.{
  ℕ, ◌+◌, ◌≡◌, ap, subst, inl, inr, ◌&&◌, Option, none, some, List, String, arith, str_eq,
  Bool-cases, Option-cases, if◌then◌else◌,
}
use terminal_status_panel.Base.Dict.{lookup, update, lookup-update, lookup-update_other}
use terminal_status_panel.Docker.{Container}
use terminal_status_panel.Docker.Memory.{
  MemoryTotal, or_no_memory, raw_state, container_memory, add_reading, record_memory,
}

-- What is held under a name, nothing where the name is missing.
abbrev pub held : String → List (String × MemoryTotal) → MemoryTotal
held name memory = or_no_memory (lookup name memory)

pub held-record_memory :
    (memory : List (String × MemoryTotal)) (o name : String) (c : Container)
    → held name (record_memory memory o c) ≡ (
        if str_eq o name && str_eq (raw_state c) "running"
        then add_reading (container_memory c) (held name memory)
        else held name memory)
unfolding record_memory
held-record_memory memory o name c = elim (Bool-cases (str_eq (raw_state c) "running")) [
  | inr stopped ↦ rw stopped (elim (Bool-cases (str_eq o name)) [ inl e ↦ rw e | inr e ↦ rw e ])
  | inl running ↦ rw running (elim (Bool-cases (str_eq o name)) [
    | inl e ↦ rw e (
        subst (λ n. held n (update o add memory) ≡ add_reading (container_memory c) (held n memory))
          ((eq_iff o name).0 e) (ap or_no_memory (lookup-update o add memory)))
    | inr e ↦ rw e (ap or_no_memory (lookup-update_other o name add memory e))
  ])
]
  where
    add : Option MemoryTotal → MemoryTotal
    add old = add_reading (container_memory c) (or_no_memory old)

abbrev usage_in : Option (ℕ × ℕ × ℕ) → ℕ
usage_in none = 0
usage_in (some m) = m.0

-- The usage of the container's reading, 0 without one.
abbrev pub usage_of : Container → ℕ
usage_of c = usage_in (container_memory c)

abbrev readings_in : Option (ℕ × ℕ × ℕ) → ℕ
readings_in none = 0
readings_in (some m) = 1

-- 1 for a container whose memory can be read.
abbrev pub readings_of : Container → ℕ
readings_of c = readings_in (container_memory c)

pub add_reading_lem :
    (c : Container) (m : MemoryTotal)
    → ((add_reading (container_memory c) m).usage ≡ m.usage + usage_of c)
      × ((add_reading (container_memory c) m).tasks ≡ m.tasks + readings_of c)
add_reading_lem c m = elim (Option-cases (container_memory c)) [
  | inl e ↦ rw e (omega arith, omega arith)
  | inr (r, e) ↦ rw e (omega arith, omega arith)
]

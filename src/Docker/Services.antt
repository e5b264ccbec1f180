-- ===== src/Docker/Services.antt =====
-- docker.py: the rows of the Swarm services and of the local containers, and `collect_docker`.
-- An exception of a call that no inner handler catches makes the whole result unreachable: such a
-- call's answer is `none` here.
pub mod Rows
mod Tests
use terminal_status_panel.Base.{
  ℕ, Bool, true, false, not, ◌&&◌, ◌||◌, Option, none, some, List, [], ◌∷◌, ◌++◌, map, String, ◌<>◌,
  ◌==◌, length, count_of, any, mem, str_eq, text_leb, text_ltb, lower_is, nonempty, before, or_text,
  is_some, if◌then◌else◌,
}
use terminal_status_panel.Base.Dict.{lookup, has_key}
use terminal_status_panel.Base.Sorting.{sort}
use terminal_status_panel.Model.Docker.{
  ServiceTask, ServiceStatus, SwarmInfo, SwarmNode, TroubleEntry, task_running,
}
use terminal_status_panel.Docker.{RawTask, Container}
use terminal_status_panel.Docker.Nodes.{RawNode, is_text, node_map}
use terminal_status_panel.Docker.Tasks.{TaskFacts, service_tasks, last_run, first_of}
use terminal_status_panel.Docker.Trouble.{retention_limit, service_trouble}
use terminal_status_panel.Docker.Memory.{MemoryTotal, apply_memory}
use terminal_status_panel.Docker.Containers.{
  Key, Listing, no_listing, container_groups, reported_state, is_live, origin_of,
}
use terminal_status_panel.Docker.Disk.{DfOutcome, disk_usage}

-- A service: the labels of its spec and of its container, the keys of `Mode`, the number of
-- replicas, the number of placement constraints, and the answers to its two task listings.
pub record RawService : Type 0 where
  pub name : String
  pub labels : List (String × String)
  pub container_labels : List (String × String)
  pub modes : List String
  pub replicas : Option ℕ
  pub image : Option String
  pub constraints : ℕ
  pub running_tasks : Option (List RawTask)
  pub all_tasks : Option (List RawTask)

-- The configuration that the collector is called with.
pub record Settings : Type 0 where
  pub critical : List String
  pub description_label : String
  pub group_label : String

abbrev missing_from : List (String × String) → List (String × String) → List (String × String)
missing_from labels [] = []
missing_from labels ((k, v) ∷ more) =
    if has_key k labels then missing_from labels more else (k, v) ∷ missing_from labels more

-- `_labels`
pub labels_of : RawService → List (String × String)
labels_of s = s.labels ++ missing_from s.labels s.container_labels

-- `_without_digest`
pub without_digest : Option String → Option String
without_digest none = none
without_digest (some reference) = nonempty (some (before b'@' reference))

-- `_is_job`
pub is_job : RawService → List (String × String) → Bool
is_job s labels =
    (elim (lookup "swarm.cronjob.enable" labels) [ none ↦ false | some v ↦ lower_is v "true" ])
    || any (λ mode. mem mode s.modes) ("ReplicatedJob" ∷ "GlobalJob" ∷ [])

-- The configured label, and where it is absent the legacy one.
abbrev pub description_of : Settings → List (String × String) → Option String
description_of settings labels =
    first_of (lookup settings.description_label labels) (lookup "lmu.service.description" labels)

-- One round of the loop of `_swarm_services`: the row.
pub swarm_service :
    Settings → List (String × String) → List (String × MemoryTotal) → ℕ → RawService → ServiceStatus
swarm_service settings names memory now s =
    let labels = labels_of s in
    let facts = service_tasks s.running_tasks names in
    let job = is_job s labels in
    apply_memory
      (record {
        name = s.name;
        running_replicas = count_of task_running facts.tasks;
        desired_replicas = s.replicas;
        critical = mem s.name settings.critical;
        stack = lookup "com.docker.stack.namespace" labels;
        description = description_of settings labels;
        tasks = facts.tasks;
        unassigned = facts.unassigned;
        job = job;
        schedule = lookup "swarm.cronjob.schedule" labels;
        last_run = if job then last_run s.all_tasks names now else none;
        image = without_digest s.image;
        group = lookup settings.group_label labels;
        pinned = not (s.constraints == 0);
        memory_bytes = none;
        memory_limit = none;
        memory_reservation = none;
        local_tasks = 0;
      })
      (lookup s.name memory)

-- The same round: the trouble entry, which a job does not have.
pub swarm_trouble : List (String × String) → Option ℕ → ℕ → RawService → Option TroubleEntry
swarm_trouble names retention now s =
    let facts = service_tasks s.running_tasks names in
    if is_job s (labels_of s)
    then none
    else service_trouble s.all_tasks s.name names facts (count_of task_running facts.tasks)
        s.replicas retention now

abbrev pub collected : List RawService → (RawService → Option TroubleEntry) → List TroubleEntry
collected [] entry = []
collected (s ∷ services) entry = elim (entry s) [
  | none ↦ collected services entry
  | some e ↦ e ∷ collected services entry
]

-- `_swarm_services`
pub swarm_services :
    Settings
    → List (String × String)
    → Option ℕ
    → List (String × MemoryTotal)
    → ℕ
    → List RawService
    → List ServiceStatus × List TroubleEntry
swarm_services settings names limit memory now services = (
  map (swarm_service settings names memory now) services,
  collected services (swarm_trouble names (retention_limit limit) now),
)

-- `_group_image`: of the first live member, or of the first one.
pub group_image : Container → List Container → Option String
group_image first [] = without_digest first.image
group_image first (c ∷ members) =
    if is_live c then without_digest c.image else group_image first members

abbrev pub task_of : Option String → Container → ServiceTask
task_of node c = record { node = node; state = reported_state c }

abbrev pub is_up : Container → Bool
is_up c = str_eq (reported_state c) "running"

-- The row of one group, whose members are `first` and `rest`.
pub group_service :
    Settings
    → Option String
    → List (String × MemoryTotal)
    → Key
    → Container
    → List Container
    → ServiceStatus
group_service settings node memory key first rest =
    apply_memory
      (record {
        name = key.1;
        running_replicas = count_of is_up (first ∷ rest);
        desired_replicas = some (length (first ∷ rest));
        critical = mem key.1 settings.critical;
        stack = key.0;
        description = description_of settings first.labels;
        tasks = map (task_of node) (first ∷ rest);
        unassigned = 0;
        job = false;
        schedule = none;
        last_run = none;
        image = group_image first (first ∷ rest);
        group = none;
        pinned = false;
        memory_bytes = none;
        memory_limit = none;
        memory_reservation = none;
        local_tasks = 0;
      })
      (lookup (origin_of key) memory)

abbrev pub group_row :
    Settings
    → Option String
    → List (String × MemoryTotal)
    → Key × List Container
    → List ServiceStatus
    → List ServiceStatus
group_row settings host memory (key, []) rows = rows
group_row settings host memory (key, first ∷ rest) rows =
    group_service settings host memory key first rest ∷ rows

-- The rows of the groups. No group is empty.
pub group_rows :
    Settings
    → Option String
    → List (String × MemoryTotal)
    → List (Key × List Container)
    → List ServiceStatus
group_rows settings host memory [] = []
group_rows settings host memory (g ∷ groups) =
    group_row settings host memory g (group_rows settings host memory groups)

-- `(svc.stack or "", svc.name)` as a sort key.
abbrev row_leb : ServiceStatus → ServiceStatus → Bool
row_leb a b =
    let s = or_text a.stack "" in
    let t = or_text b.stack "" in text_ltb s t || (str_eq s t && text_leb a.name b.name)

abbrev pub on_node : Option String → TroubleEntry → TroubleEntry
on_node node entry = record entry { node = node }

-- `_container_services`: the rows, with the listing whose trouble entries name the node.
pub container_services :
    Settings → Option String → ℕ → List Container → List ServiceStatus × Listing
container_services settings node now containers =
    let l = container_groups now containers no_listing in
    (
      sort row_leb (group_rows settings node l.memory l.groups),
      record l { trouble = map (on_node node) l.trouble },
    )

-- ===== src/Docker/Containers.antt =====
-- docker.py: the state of a local container, its trouble entry, and `_container_groups`; and
-- collectors/_labels.py: the name of a Compose container.
pub mod Totals
pub mod Partition
mod Tests
use terminal_status_panel.Base.{
  ℕ, ◌-◌, Bool, true, false, not, ◌&&◌, Option, none, some, List, [], ◌∷◌, ◌++◌, String, ◌<>◌, ltb,
  ◌==◌, mem, str_eq, strip, shown, or_text, nonempty, if◌then◌else◌,
}
use terminal_status_panel.Base.Dict.{lookup, has_key, update}
use terminal_status_panel.Model.Docker.{TroubleEntry}
use terminal_status_panel.Docker.{Container, within_window}
use terminal_status_panel.Docker.Nodes.{is_text}
use terminal_status_panel.Docker.Memory.{MemoryTotal, record_memory, raw_state}

abbrev pub swarm_service_label : String
swarm_service_label = "com.docker.swarm.service.name"

abbrev pub compose_service_label : String
compose_service_label = "com.docker.compose.service"

abbrev pub compose_project_label : String
compose_project_label = "com.docker.compose.project"

-- `compose_identity`
pub compose_identity : List (String × String) → String → String
compose_identity labels name =
    if has_key compose_project_label labels
    then or_text (lookup compose_service_label labels) name
    else name

-- `_LIVE_STATES`
abbrev pub is_live : Container → Bool
is_live c = mem (raw_state c) ("running" ∷ "restarting" ∷ [])

-- `_reported_state`
pub reported_state : Container → String
reported_state c = elim c.health [
  | none ↦ raw_state c
  | some health ↦ if mem health ("unhealthy" ∷ "starting" ∷ []) then health else raw_state c
]

-- `_is_completed_job`
pub is_completed_job : Container → Bool
is_completed_job c =
    is_text c.status "exited" && (elim c.exit_code [ none ↦ false | some code ↦ code == 0 ])

abbrev shown_code : Option ℕ → String
shown_code none = "None"
shown_code (some code) = shown code

abbrev exit_cause : ℕ → Option String → String
exit_cause code none = "exit " <> shown code
exit_cause code (some error) = "exit " <> shown code <> " · \"" <> error <> "\""

abbrev not_zero : Option ℕ → Option ℕ
not_zero none = none
not_zero (some code) = if code == 0 then none else some code

-- `_container_cause`
pub container_cause : Container → Option String
container_cause c =
    if is_text c.status "running"
    then none
    else if c.oom_killed
    then some ("OOMKilled · exit " <> shown_code c.exit_code)
    else (elim (not_zero c.exit_code) [
      | none ↦ none
      | some code ↦ some (exit_cause code (nonempty (some (strip (or_text c.error "")))))
    ])

abbrev pub restart_count : Container → ℕ
restart_count c = elim c.restarts [ none ↦ 0 | some n ↦ n ]

abbrev trouble_severity : Container → String
trouble_severity c =
    if is_text c.status "running"
    then "recovered"
    else if is_text c.status "restarting"
    then "restarting"
    else "dead"

abbrev pub container_entry : Container → String → ℕ → ℕ → TroubleEntry
container_entry c name now started = record {
  name = name;
  node = none;
  fails = some (restart_count c);
  fails_capped = false;
  uptime_seconds = if is_text c.status "running" then some (now - started) else none;
  cause = container_cause c;
  severity = trouble_severity c;
  source = "container";
}

-- `_container_trouble`
pub container_trouble : ℕ → Container → String → Option TroubleEntry
container_trouble now c name =
    if ltb 0 (restart_count c)
    then (elim c.started [
      | none ↦ none
      | some at ↦ if within_window now at then some (container_entry c name now at) else none
    ])
    else none

-- The key of a group: the project and the name.
abbrev pub Key : Type 0
Key = Option String × String

abbrev same_project : Option String → Option String → Bool
same_project none none = true
same_project none (some b) = false
same_project (some a) none = false
same_project (some a) (some b) = str_eq a b

abbrev pub same_key : Key → Key → Bool
same_key a b = same_project a.0 b.0 && str_eq a.1 b.1

-- `groups.setdefault(key, []).append(container)`
pub add_member : Key → Container → List (Key × List Container) → List (Key × List Container)
add_member key c [] = (key, c ∷ []) ∷ []
add_member key c ((k, members) ∷ groups) =
    if same_key k key
    then (k, members ++ (c ∷ [])) ∷ groups
    else (k, members) ∷ add_member key c groups

-- The four results of `_container_groups`.
pub record Listing : Type 0 where
  pub groups : List (Key × List Container)
  pub origins : List (String × String)
  pub trouble : List TroubleEntry
  pub memory : List (String × MemoryTotal)

abbrev pub no_listing : Listing
no_listing = record { groups = []; origins = []; trouble = []; memory = [] }

-- `f"{key[0]}_{key[1]}" if key[0] else key[1]`
abbrev pub origin_of : Key → String
origin_of (project, name) = elim (nonempty project) [ none ↦ name | some p ↦ p <> "_" <> name ]

abbrev pub project_of : Container → Option String
project_of c = lookup compose_project_label c.labels

abbrev pub key_of : Container → Key
key_of c = (project_of c, compose_identity c.labels c.name)

-- The container's Swarm service, unless the label is absent or empty.
abbrev pub swarm_service_of : Container → Option String
swarm_service_of c = nonempty (lookup swarm_service_label c.labels)

abbrev set_origin : Container → String → List (String × String) → List (String × String)
set_origin c name = update c.id (λ old. name)

abbrev pub add_swarm : Container → String → Listing → Listing
add_swarm c service l = record l {
  origins = set_origin c service l.origins;
  memory = record_memory l.memory service c;
}

abbrev append_trouble : Option TroubleEntry → List TroubleEntry → List TroubleEntry
append_trouble none entries = entries
append_trouble (some entry) entries = entries ++ (entry ∷ [])

abbrev pub add_local : ℕ → Container → Listing → Listing
add_local now c l =
    let name = origin_of (key_of c) in
    record {
      groups = add_member (key_of c) c l.groups;
      origins = set_origin c name l.origins;
      trouble = append_trouble (container_trouble now c name) l.trouble;
      memory = record_memory l.memory name c;
    }

-- A container outside a project is shown only while it lives.
abbrev pub is_shown : Container → Bool
is_shown c = not (is_completed_job c) && (elim (project_of c) [ none ↦ is_live c | some p ↦ true ])

-- One round of the loop.
pub add_container : ℕ → Container → Listing → Listing
add_container now c l = elim (swarm_service_of c) [
  | none ↦ if is_shown c then add_local now c l else l
  | some service ↦ add_swarm c service l
]

-- `_container_groups`
pub container_groups : ℕ → List Container → Listing → Listing
container_groups now [] l = l
container_groups now (c ∷ containers) l = container_groups now containers (add_container now c l)

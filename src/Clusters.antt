-- ===== src/Clusters.antt =====
-- src/terminal_status_panel/collectors/clusters.py: what the probes share. A container is found by
-- its name, a command runs in it, and a command's end is either an exit code with its text or an
-- exception. `lower` is Python's `str.lower`.
pub mod Postgres
pub mod Mongo
pub mod Kafka
pub mod Hosts
pub mod Probes
pub mod Members
mod Tests
use terminal_status_panel.Base.{
  ℕ, suc, ◌-◌, ◌==◌, Bool, true, false, not, ◌&&◌, ◌||◌, Option, none, some, List, [], ◌∷◌, ◌++◌,
  map, String, ◌<>◌, any, filter, length, leb, ltb, str_eq, strip, is_empty, or_text, or_else,
  prefix, contains, partition, lstrip_char, without_end, shown, get_or, if◌then◌else◌,
}
use terminal_status_panel.Base.Dict.{lookup}
use terminal_status_panel.Model.Health.{ClusterMember, ClusterService}

pub data Tried (A : Type 0) : Type 0 where
  answered : A → Tried A
  raised : String → Tried A

-- `attrs["Config"]`, as an inspect gives it.
pub record Config : Type 0 where
  pub labels : Option (List (String × String))
  pub env : List String

-- `inspected` is what `reload` would read, `none` where it fails.
pub record Container : Type 0 where
  pub name : Option String
  pub names : List String
  pub labels : List (String × String)
  pub config : Option Config
  pub inspected : Option Config

pub record SwarmService : Type 0 where
  pub name : String
  pub is_global : Bool
  pub replicas : ℕ
  pub constraints : List String

-- What the shared index answers; `host` is the `Name` of `docker info`.
pub record Index : Type 0 where
  pub containers : Tried (List Container)
  pub services : Tried (List SwarmService)
  pub host : Tried (Option String)

pub record Patterns : Type 0 where
  pub match : List String
  pub exclude : List String

-- `ClusterService(kind=kind)`
abbrev pub unprobed : String → ClusterService
unprobed kind = record {
  kind = kind;
  name = none;
  applicable = true;
  reachable = false;
  leader = none;
  quorum_ok = none;
  detail = none;
  members = [];
  error = none;
}

abbrev pub broken : String → String → ClusterService
broken kind error = record (unprobed kind) { error = some error }

-- `container_names`
pub container_names : Container → List String
container_names c =
    let more = map (lstrip_char b'/') c.names in
    elim c.name [
      | none ↦ more
      | some own ↦ if is_empty own then more else lstrip_char b'/' own ∷ more
    ]

pub container_name : Container → String
container_name c = get_or (container_names c) 0 ""

-- `container_labels`
pub container_labels : Container → List (String × String)
container_labels c = elim c.config [
  | none ↦ c.labels
  | some config ↦ elim config.labels [ none ↦ c.labels | some labels ↦ labels ]
]

-- `_service_name`
pub service_name : Container → String
unfolding lookup
service_name c =
    or_text (lookup "com.docker.swarm.service.name" (container_labels c)) (container_name c)

-- `_append_note`, on the detail.
pub append_note : Option String → String → String
append_note none note = "(" <> note <> ")"
append_note (some detail) note =
    if is_empty detail then "(" <> note <> ")" else (elim (without_end b')' detail) [
      | none ↦ detail <> " (" <> note <> ")"
      | some front ↦ front <> ", " <> note <> ")"
    ])

-- `_note_extra_containers`
pub note_extras : ClusterService → ℕ → ClusterService
note_extras service extras = if extras == 0 then service else record service {
  detail = some (
      append_note service.detail
        ("+" <> shown extras <> " more container" <> (if ltb 1 extras then "s" else "")));
}

pub data Located : Type 0 where
  found : Container → ℕ → Located
  verdict : ClusterService → Located

-- A verdict that is there already is the probe's; a container is probed.
abbrev pub on_member : Located → (Container → ℕ → ClusterService) → ClusterService
on_member (verdict service) probe = service
on_member (found c extras) probe = probe c extras

-- The `try` around what a probe runs.
abbrev pub on_answer : {A : Type 0} → String → Tried A → (A → ClusterService) → ClusterService
on_answer kind (raised e) judge = broken kind e
on_answer kind (answered a) judge = judge a

module _ (lower : String → String) where
  -- `_excluded`
  pub excluded : List String → List String → Bool
  excluded names exclude = any (λ entry. any (λ name. contains (lower entry) name) names) exclude

  -- A container that `find_containers` keeps.
  pub is_match : Patterns → Container → Bool
  is_match p c =
      let names = map lower (container_names c) in
      not (excluded names p.exclude)
      && any (λ pattern. any (λ name. contains (lower pattern) name) names) p.match

  -- `_pinned_to_hostname`
  pub pinned_to_hostname : List String → String → Bool
  pinned_to_hostname constraints hostname =
      any
        (λ text. elim (partition "==" text) [
          | none ↦ false
          | some (key, value) ↦ str_eq (strip key) "node.hostname" && str_eq (strip value) hostname
        ])
        constraints

  -- A service for which `_wanted_on_this_node` returns `True`.
  pub is_wanted : Patterns → String → SwarmService → Bool
  is_wanted p hostname s =
      let name = lower s.name in
      not (excluded (name ∷ []) p.exclude)
      && any (λ pattern. contains (lower pattern) name) p.match
      && (s.is_global || (leb 1 s.replicas && pinned_to_hostname s.constraints hostname))

  -- `_wanted_on_this_node`, with the caller's `False` for an exception.
  pub wanted_here : Index → Patterns → Bool
  wanted_here index p = elim index.host [
    | raised e ↦ false
    | answered none ↦ false
    | answered (some hostname) ↦ if is_empty hostname then false else (elim index.services [
      | raised e ↦ false
      | answered services ↦ any (is_wanted p hostname) services
    ])
  ]

  -- `locate_member`, for what `find_containers` finds.
  pub located : Index → String → Patterns → List Container → Located
  located index kind p [] = verdict (
      if wanted_here index p
      then broken kind "no running container"
      else record (unprobed kind) { applicable = false })
  located index kind p (c ∷ more) = found c (length more)

  abbrev pub among : Index → String → Patterns → Tried (List Container) → Located
  among index kind p (raised e) = verdict (broken kind e)
  among index kind p (answered containers) = located index kind p (filter (is_match p) containers)

  pub locate_member : Index → String → Patterns → Located
  locate_member index kind p = among index kind p index.containers

-- `kind_for_service`, over the kinds and their patterns.
abbrev pub first_kind : (String → Bool) → List (String × List String) → Option String
first_kind hit [] = none
first_kind hit ((kind, patterns) ∷ kinds) =
    if any hit patterns then some kind else first_kind hit kinds

pub kind_for_service :
    (String → String) → List (String × List String) → List String → String → Option String
kind_for_service lower kinds exclude name =
    if excluded lower (lower name ∷ []) exclude
    then none
    else first_kind (λ pattern. contains (lower pattern) (lower name)) kinds

-- What `exec_run` gives: its exit code and its output as text.
abbrev pub Exec : Type 0
Exec = Container → List String → Tried (ℕ × String)

-- `exec_text`
pub exec_text : Exec → Container → List String → Tried String
exec_text run c command = elim (run c command) [
  | raised e ↦ raised e
  | answered (code, text) ↦
      let said = prefix 200 (strip text) in
      if code == 0
      then answered text
      else raised (if is_empty said then "exit code " <> shown code else said)
]

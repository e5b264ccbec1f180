-- ===== src/Docker/Nodes.antt =====
-- docker.py: `_node_map`, and the counts that a service's mode and labels give.
use terminal_status_panel.Base.{
  Bool, false, Option, none, some, List, [], ◌∷◌, map, String, str_eq, or_text, nonempty, text_leb,
}
use terminal_status_panel.Base.Dict.{update}
use terminal_status_panel.Base.Sorting.{sort}
use terminal_status_panel.Model.Docker.{SwarmNode}

-- A node: `sdk_id` is the SDK's attribute `id`, `manager` the reachability and the leader flag of
-- its `ManagerStatus`, which a worker does not have.
pub record RawNode : Type 0 where
  pub sdk_id : Option String
  pub id : Option String
  pub hostname : Option String
  pub state : Option String
  pub role : Option String
  pub availability : Option String
  pub engine_version : Option String
  pub manager : Option (Option String × Bool)

abbrev pub reachability_of : RawNode → Option String
reachability_of n = elim n.manager [ none ↦ none | some m ↦ m.0 ]

abbrev is_leader : RawNode → Bool
is_leader n = elim n.manager [ none ↦ false | some m ↦ m.1 ]

-- `x == s` for an `x` that may be `None`.
abbrev pub is_text : Option String → String → Bool
is_text none s = false
is_text (some x) s = str_eq x s

abbrev pub hostname_of : RawNode → String
hostname_of n = or_text n.hostname (elim n.sdk_id [ none ↦ "?" | some i ↦ i ])

-- The record of one node.
pub swarm_node : RawNode → SwarmNode
swarm_node n = record {
  name = hostname_of n;
  reachable = is_text n.state "ready";
  role = n.role;
  leader = is_leader n;
  state = n.state;
  availability = n.availability;
  engine_version = n.engine_version;
  reachable_by_managers = elim (reachability_of n) [
    | none ↦ none
    | some r ↦ some (str_eq r "reachable")
  ];
}

-- `attrs.get("ID") or getattr(node, "id", "")`
abbrev pub node_key : RawNode → Option String
node_key n = elim (nonempty n.id) [ none ↦ nonempty n.sdk_id | some i ↦ some i ]

-- `id_to_name[node_id] = name`, where a later node with the same id takes the place.
abbrev pub add_name : RawNode → List (String × String) → List (String × String)
add_name n names = elim (node_key n) [
  | none ↦ names
  | some i ↦ update i (λ old. hostname_of n) names
]

pub names_of : List RawNode → List (String × String) → List (String × String)
names_of [] names = names
names_of (n ∷ nodes) names = names_of nodes (add_name n names)

-- `_node_map`: empty where the call fails.
pub node_map : Option (List RawNode) → List SwarmNode × List (String × String)
node_map none = ([], [])
node_map (some nodes) =
    (sort (λ (a b : SwarmNode). text_leb a.name b.name) (map swarm_node nodes), names_of nodes [])

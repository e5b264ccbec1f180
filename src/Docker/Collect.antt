-- ===== src/Docker/Collect.antt =====
-- docker.py: `collect_docker`, of the answers of the Docker API.
use terminal_status_panel.Base.{
  ℕ, Bool, true, false, Option, none, some, List, [], ◌++◌, String, ◌==◌, length, or_text, nonempty,
  if◌then◌else◌,
}
use terminal_status_panel.Base.Dict.{lookup}
use terminal_status_panel.Model.Docker.{SwarmInfo}
use terminal_status_panel.Docker.{Container}
use terminal_status_panel.Docker.Nodes.{RawNode, is_text, node_map}
use terminal_status_panel.Docker.Memory.{or_none}
use terminal_status_panel.Docker.Disk.{DfOutcome, disk_usage}
use terminal_status_panel.Docker.Services.{RawService, Settings, container_services, swarm_services}

-- `client.info()`: the last three are fields of its `Swarm` but for the server's version.
pub record Info : Type 0 where
  pub name : Option String
  pub root_dir : Option String
  pub server_version : Option String
  pub local_node_state : Option String
  pub control_available : Bool
  pub node_id : Option String
  pub node_total : Option ℕ

-- What the daemon answers. `none` is a call that raised.
pub record Answers : Type 0 where
  pub info : Option Info
  pub nodes : Option (List RawNode)
  pub containers : Option (List Container)
  pub retention : Option ℕ
  pub services : Option (List RawService)
  pub df : DfOutcome

abbrev pub unreachable : SwarmInfo
unreachable = record {
  reachable = false;
  enabled = false;
  node_role = none;
  node_count = none;
  services = [];
  containers = [];
  nodes = [];
  container_services = [];
  local_engine_version = none;
  disk = none;
  trouble = [];
}

-- `swarm.get("Nodes") or (len(nodes) or None)`
abbrev pub node_count_of : Option ℕ → ℕ → Option ℕ
node_count_of none n = or_none n
node_count_of (some total) n = if total == 0 then or_none n else some total

-- The answer on a member of a swarm.
pub swarm_info : Settings → ℕ → Answers → Info → List Container → List RawService → SwarmInfo
swarm_info settings now a info containers services =
    let (nodes, names) = node_map a.nodes in
    let local_node = lookup (or_text info.node_id "") names in
    let (rows, listing) = container_services settings local_node now containers in
    let (swarm_rows, swarm_trouble) =
      swarm_services settings names a.retention listing.memory now services in
    record {
      reachable = true;
      enabled = true;
      node_role = some (if info.control_available then "manager" else "worker");
      node_count = node_count_of info.node_total (length nodes);
      services = swarm_rows;
      containers = rows;
      nodes = nodes;
      container_services = listing.origins;
      local_engine_version = info.server_version;
      disk = some (
          disk_usage (elim (nonempty local_node) [ none ↦ info.name | some n ↦ some n ])
            info.root_dir a.df);
      trouble = listing.trouble ++ swarm_trouble;
    }

-- The answer off a swarm.
pub plain_info : Settings → ℕ → Answers → Info → List Container → SwarmInfo
plain_info settings now a info containers =
    let (rows, listing) = container_services settings none now containers in
    record unreachable {
      reachable = true;
      containers = rows;
      container_services = listing.origins;
      disk = some (disk_usage info.name info.root_dir a.df);
      trouble = listing.trouble;
    }

-- `collect_docker`
pub collect_docker : Settings → ℕ → Answers → SwarmInfo
collect_docker settings now a = elim a.info [
  | none ↦ unreachable
  | some info ↦ elim a.containers [
    | none ↦ unreachable
    | some containers ↦
        if is_text info.local_node_state "active"
        then (elim a.services [
          | none ↦ unreachable
          | some services ↦ swarm_info settings now a info containers services
        ])
        else plain_info settings now a info containers
  ]
]

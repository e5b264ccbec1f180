-- ===== src/Clusters/Hosts.antt =====
-- collectors/clusters.py: the peers and bricks of GlusterFS, and the endpoints of RustFS. The
-- documents that `ElementTree` parses are given as records: the texts of the elements that the code
-- looks up, `none` for an element that is not there.
pub mod Majority
use terminal_status_panel.Base.{
  ℕ, suc, ◌+◌, ◌-◌, ◌*◌, ◌==◌, Bool, true, false, not, ◌&&◌, ◌||◌, Option, none, some, List, [],
  ◌∷◌, ◌++◌, map, filter, String, ◌<>◌, ltb, leb, length, count_of, str_eq, strip, is_empty,
  nonempty, or_text, before, after, has_char, partition, prefix, contains, words, shown,
  if◌then◌else◌,
}
use terminal_status_panel.Model.Health.{ClusterMember, ClusterService}
use terminal_status_panel.Clusters.{
  Container, Config, Exec, Tried, answered, raised, unprobed, broken, on_answer, exec_text,
  note_extras,
}

pub record Peer : Type 0 where
  pub hostname : Option String
  pub connected : Option String
  pub state : Option String

pub record Brick : Type 0 where
  pub hostname : Option String
  pub status : Option String
  pub path : Option String

pub record Volume : Type 0 where
  pub vol_name : Option String
  pub nodes : List Brick

abbrev text_of : Option String → String → String
text_of text default = strip (or_text text default)

pub is_connected : Peer → Bool
is_connected p = str_eq (text_of p.connected "0") "1"

abbrev plain_member : String → String → Bool → Option String → ClusterMember
plain_member name role healthy detail = record {
  name = name;
  node = none;
  role = some role;
  healthy = some healthy;
  detail = detail;
  warning = none;
  lag_bytes = none;
}

pub peer_member : Peer → ClusterMember
peer_member p =
    plain_member (text_of p.hostname "") "peer" (is_connected p)
      (nonempty (some (text_of p.state "")))

abbrev is_brick : Brick → Bool
is_brick b = not (str_eq (text_of b.hostname "") "Self-heal Daemon")

pub brick_member : Brick → ClusterMember
brick_member b =
    plain_member (text_of b.hostname "") "brick" (str_eq (text_of b.status "0") "1")
      (nonempty (some (text_of b.path "")))

abbrev volume_name : List Volume → Option String
volume_name [] = none
volume_name (v ∷ more) = nonempty (some (text_of v.vol_name ""))

abbrev first_bricks : List Volume → List Brick
first_bricks [] = []
first_bricks (v ∷ more) = filter is_brick v.nodes

-- `f"{volume_name} (+{extra_volumes} more volumes)"`, where a name of `None` is written so.
abbrev extra_volumes : List Volume → Option String
extra_volumes [] = none
extra_volumes (v ∷ []) = none
extra_volumes (v ∷ next ∷ more) = some (
    or_text (volume_name (v ∷ [])) "None" <> " (+" <> shown (suc (length more)) <> " more volumes)")

-- `parse_gluster`, of the peers and the volumes in the two documents.
pub parse_gluster : List Peer → List Volume → ClusterService
parse_gluster peers volumes =
    let connected = count_of is_connected peers in
    let total = length peers in
    record (unprobed "glusterfs") {
      name = volume_name volumes;
      reachable = ltb 0 total || ltb 0 (length volumes);
      quorum_ok = if ltb 0 total then some (ltb (total + 1) ((connected + 1) * 2)) else none;
      detail = extra_volumes volumes;
      members = map peer_member peers ++ map brick_member (first_bricks volumes);
    }

-- How a call of `_gluster` ends: with its output, without the tool or the right to run it, or
-- with another exception.
pub data Called (A : Type 0) : Type 0 where
  printed : A → Called A
  unavailable : Called A
  failed : String → Called A

-- How `subprocess.run` ends: it finds no program, raises something else, or gives the exit code
-- and the two outputs.
pub data Ran : Type 0 where
  not_found : Ran
  crashed : String → Ran
  exited : ℕ → String → String → Ran

-- `_gluster`
pub gluster : Ran → Called String
gluster not_found = unavailable
gluster (crashed e) = failed e
gluster (exited code stdout stderr) =
    let said = strip stderr in
    if code == 0
    then printed stdout
    else if contains "sudo:" said || contains "not allowed to execute" said
    then unavailable
    else failed (or_text (some said) (or_text (some (prefix 200 (strip stdout))) "gluster failed"))

-- The `try` around the calls of `_gluster`.
abbrev pub on_call : Called String → (String → ClusterService) → ClusterService
on_call unavailable judge = record (unprobed "glusterfs") { applicable = false }
on_call (failed e) judge = broken "glusterfs" e
on_call (printed text) judge = judge text

-- `probe_glusterfs`, with what the two calls give. `peers_of` and `volumes_of` read the elements out
-- of what `ElementTree.fromstring` makes of a text, which raises where it is no document.
pub probe_glusterfs :
    (String → Tried (List Peer))
    → (String → Tried (List Volume))
    → Called String
    → Called String
    → ClusterService
probe_glusterfs peers_of volumes_of peer_call volume_call = on_call peer_call (λ peer_xml.
    on_call volume_call (λ volume_xml. on_answer "glusterfs" (peers_of peer_xml) (λ peers.
      on_answer "glusterfs" (volumes_of volume_xml) (λ volumes. parse_gluster peers volumes))))

-- The value of `RUSTFS_VOLUMES` in the environment.
pub volumes_entry : List String → Option String
volumes_entry [] = none
volumes_entry (entry ∷ env) =
    if str_eq (before b'=' entry) "RUSTFS_VOLUMES"
    then some (after b'=' entry)
    else volumes_entry env

pub url_endpoints : List String → List String
url_endpoints [] = []
url_endpoints (token ∷ tokens) =
    let rest = url_endpoints tokens in
    elim (partition "://" token) [
      | none ↦ rest
      | some (scheme, path) ↦ (scheme <> "://" <> before b'/' path) ∷ rest
    ]

abbrev or_local : List String → String → List String
or_local [] local = local ∷ []
or_local (e ∷ endpoints) local = e ∷ endpoints

abbrev env_of : Option Config → List String
env_of none = []
env_of (some config) = config.env

-- `rustfs_endpoints`
pub rustfs_endpoints : Container → String → List String × Bool
rustfs_endpoints c scheme =
    let local : String = scheme <> "://localhost:9000" in
    elim (volumes_entry (env_of c.config)) [
      | none ↦ (local ∷ [], true)
      | some raw ↦ (or_local (url_endpoints (words raw)) local, false)
    ]

-- `_load_full_attributes`
pub load_full_attributes : Container → Container
load_full_attributes c = elim c.config [
  | none ↦ record c { config = c.inspected }
  | some config ↦ c
]

abbrev pub is_live : ClusterMember → Bool
is_live m = elim m.healthy [ none ↦ false | some ok ↦ ok ]

-- The member of an endpoint, from what curl printed or from the exception.
abbrev pub judged : String → Tried String → ClusterMember
judged endpoint (answered text) =
    plain_member endpoint "peer" (str_eq (strip text) "200") (some ("HTTP " <> strip text))
judged endpoint (raised e) = plain_member endpoint "peer" false (some (prefix 60 e))

module _ (run : Exec) (per_endpoint : ℕ → String) (c : Container) where
  -- `per_endpoint` is the share of the timeout, as curl is given it.
  abbrev curl : ℕ → String → List String
  curl count endpoint =
      "curl"
      ∷ "-ks"
      ∷ "-o"
      ∷ "/dev/null"
      ∷ "-m"
      ∷ per_endpoint count
      ∷ "-w"
      ∷ "%{http_code}"
      ∷ (endpoint <> "/health")
      ∷ []

  -- A round of the loop of `probe_rustfs`.
  pub endpoint_member : ℕ → String → ClusterMember
  endpoint_member count endpoint = judged endpoint (exec_text run c (curl count endpoint))

  -- What `probe_rustfs` makes of the endpoints of the container that was found.
  pub rustfs_measured : List String × Bool → ClusterService
  rustfs_measured (endpoints, guessed) =
      let members = map (endpoint_member (length endpoints)) endpoints in
      let live = count_of is_live members in
      record (unprobed "rustfs") {
        name = some "rustfs";
        reachable = ltb 0 live;
        quorum_ok =
            if guessed || length members == 0 then none else some (ltb (length members) (live * 2));
        detail = some (
            shown live
            <> "/"
            <> shown (length members)
            <> " live"
            <> (if guessed then " (endpoint list unknown)" else ""));
        members = members;
      }

  pub rustfs_service : List String × Bool → ℕ → ClusterService
  rustfs_service endpoints extras = note_extras (rustfs_measured endpoints) extras

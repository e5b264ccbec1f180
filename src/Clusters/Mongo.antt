-- ===== src/Clusters/Mongo.antt =====
-- collectors/clusters.py: the replica set, from the JSON that mongosh prints. `Hello` is that
-- object, in the shape that the script gives it; `loads` is `json.loads` into it, and its exception
-- where it or the reading raises.
pub mod Members
mod Tests
use terminal_status_panel.Base.{
  ℕ, ◌-◌, ◌==◌, Bool, true, false, not, ◌&&◌, ◌||◌, Option, none, some, List, [], ◌∷◌, ◌++◌, map,
  String, max, ltb, str_eq, strip, is_empty, is_some, nonempty, or_text, mem, splitlines, shown,
  ◌<>◌, if◌then◌else◌,
}
use terminal_status_panel.Base.Dict.{lookup, update}
use terminal_status_panel.Model.Health.{ClusterMember, ClusterService}
use terminal_status_panel.Clusters.{Tried, answered, raised, unprobed}

-- `states` are the entries of `members`: the host and the state of each, `none` for a missing key.
-- A `members` that is no list is an empty one.
pub record Hello : Type 0 where
  pub set : Option String
  pub me : Option String
  pub primary : Option String
  pub hosts : List String
  pub passives : List String
  pub arbiters : List String
  pub states : List (Option String × Option String)

-- `_mongo_fanout_budget`, in milliseconds.
pub fanout_budget : ℕ → ℕ
fanout_budget timeout = max 200 (timeout - 1500)

-- One of the loops of `_mongo_hosts`.
pub add_hosts : List String → List String → List String
add_hosts hosts [] = hosts
add_hosts hosts (host ∷ more) =
    add_hosts (if mem host hosts then hosts else hosts ++ (host ∷ [])) more

-- `_mongo_hosts`
pub mongo_hosts : Hello → List String
mongo_hosts h = add_hosts (add_hosts h.hosts h.passives) h.arbiters

abbrev measured_from :
    List (Option String × Option String) → List (String × String) → List (String × String)
measured_from [] states = states
measured_from ((host, state) ∷ more) states = measured_from more (elim (nonempty host) [
  | none ↦ states
  | some h ↦ update h (λ old. or_text state "other") states
])

-- `_mongo_measured_states`
pub measured_states : Hello → List (String × String)
measured_states h = measured_from h.states []

-- `_MONGO_STATES`
abbrev pub known_states : List (String × (String × Option Bool))
known_states =
    ("unreachable", ("unreachable", some false))
    ∷ ("primary", ("primary", some true))
    ∷ ("secondary", ("secondary", some true))
    ∷ ("arbiter", ("arbiter", some true))
    ∷ ("other", ("other", none))
    ∷ []

abbrev is_same_host : String → Option String → Bool
is_same_host host none = false
is_same_host host (some other) = str_eq host other

-- What `_mongo_member_role` infers without a measurement.
abbrev pub inferred : String → Option String → Option String → String × Option Bool
inferred host primary me =
    if is_same_host host primary
    then ("primary", some true)
    else if is_same_host host me
    then ("secondary", some true)
    else ("member", none)

abbrev known : Option String → Option (String × Option Bool)
known none = none
known (some state) = lookup state known_states

-- `_mongo_member_role`
pub member_role : String → Option String → Option String → Option String → String × Option Bool
member_role host state primary me = elim (known state) [
  | none ↦ inferred host primary me
  | some role ↦ role
]

pub mongo_member : Hello → String → ClusterMember
mongo_member h host =
    let (role, healthy) = member_role host (lookup host (measured_states h)) h.primary h.me in
    record {
      name = host;
      node = none;
      role = some role;
      healthy = healthy;
      detail = none;
      warning = none;
      lag_bytes = none;
    }

abbrev pub is_none_listed : List String → Bool
is_none_listed [] = true
is_none_listed (host ∷ hosts) = false

-- Nothing that looks like a replica set.
pub is_unknown : Hello → Bool
is_unknown h =
    is_none_listed (mongo_hosts h)
    && not (is_some (nonempty h.primary))
    && not (is_some (nonempty h.set))

-- `parse_mongo_hello`, of the object.
pub mongo_service : Hello → ClusterService
mongo_service h = if is_unknown h then unprobed "mongodb" else record (unprobed "mongodb") {
  name = h.set;
  reachable = true;
  leader = h.primary;
  quorum_ok = some (is_some (nonempty h.primary));
  members = map (mongo_member h) (mongo_hosts h);
}

abbrev last_written : List String → String
last_written [] = ""
last_written (line ∷ lines) =
    let later = last_written lines in
    if is_empty later && not (is_empty (strip line)) then line else later

abbrev pub measured : Tried Hello → Tried ClusterService
measured (raised e) = raised e
measured (answered hello) = answered (mongo_service hello)

-- `parse_mongo_hello`
pub parse_mongo_hello : (String → Tried Hello) → String → Tried ClusterService
parse_mongo_hello loads output = measured (loads (last_written (splitlines output)))

-- `mongo_command`, with the timeout in milliseconds.
pub mongo_command : ℕ → List String
mongo_command timeout =
    "mongosh"
    ∷ "--tls"
    ∷ "--tlsAllowInvalidCertificates"
    ∷ "--quiet"
    ∷ "--eval"
    ∷ ("const h = db.hello();"
        <> "const hosts = (h.hosts || []).concat(h.passives || []).concat(h.arbiters || []);"
        <> "const deadline = Date.now() + "
        <> shown (fanout_budget timeout)
        <> ";const members = [];for (const host of hosts) {  if (Date.now() >= deadline) break;  try {"
        <> "    const uri = \"mongodb://\" + host + \"/?tls=true&tlsAllowInvalidCertificates=true\""
        <> "      + \"&serverSelectionTimeoutMS=700\"      + \"&connectTimeoutMS=700\""
        <> "      + \"&socketTimeoutMS=700\";"
        <> "    const hh = new Mongo(uri).getDB(\"admin\").hello();"
        <> "    const state = hh.arbiterOnly === true ? \"arbiter\""
        <> "      : hh.isWritablePrimary === true ? \"primary\""
        <> "      : hh.secondary === true ? \"secondary\" : \"other\";"
        <> "    members.push({host: host, state: state});"
        <> "  } catch (e) {    members.push({host: host, state: \"unreachable\"});  }}"
        <> "JSON.stringify({set: h.setName, me: h.me, primary: h.primary,"
        <> " isPrimary: h.isWritablePrimary, hosts: hosts, members: members})")
    ∷ []

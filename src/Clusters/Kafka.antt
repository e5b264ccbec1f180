-- ===== src/Clusters/Kafka.antt =====
-- collectors/clusters.py: the status of the KRaft quorum. `loads` is `json.loads` with what the loops
-- find in its value.
pub mod Leader
use terminal_status_panel.Base.{
  ℕ, Bool, true, false, not, ◌&&◌, ◌||◌, Option, none, some, List, [], ◌∷◌, ◌++◌, map, any, String,
  ◌<>◌, str_eq, strip, or_else, or_text, is_some, is_empty, before, after, before_last, has_char,
  partition, splitlines, if◌then◌else◌,
}
use terminal_status_panel.Base.Dict.{lookup, has_key, update}
use terminal_status_panel.Model.Health.{ClusterMember, ClusterService}
use terminal_status_panel.Clusters.{Tried, answered, raised, unprobed}

-- An entry of the voters or the observers: the text of its `id`, if it has one, and its endpoints.
pub record Voter : Type 0 where
  pub id : Option String
  pub endpoints : List String

-- `json.loads` of a field: a `ValueError`; a value that is not iterable or another exception, with
-- its text; or the entries that iteration gives, where one that is no object with texts in its
-- endpoints raises as soon as it is read.
pub data Loaded : Type 0 where
  entries : List (Tried Voter) → Loaded
  value_error : Loaded
  failing : String → Loaded

-- `kafka_command`
pub kafka_command : String → List String
kafka_command command_config =
    ("/opt/kafka/bin/kafka-metadata-quorum.sh" ∷ "--bootstrap-server" ∷ "localhost:9092" ∷ [])
    ++ ((if is_empty command_config then [] else "--command-config" ∷ command_config ∷ [])
        ++ ("describe" ∷ "--status" ∷ []))

abbrev some_or : Option String → String → String
some_or none default = default
some_or (some s) default = s

abbrev raw_endpoint : Voter → String
raw_endpoint v = elim v.endpoints [ [] ↦ some_or v.id "?" | endpoint ∷ more ↦ endpoint ]

abbrev without_scheme : String → String
without_scheme s = elim (partition "://" s) [ none ↦ s | some (scheme, rest) ↦ rest ]

-- `_kafka_endpoint_host`
pub endpoint_host : Voter → String
endpoint_host v = before_last b':' (without_scheme (raw_endpoint v))

-- The loop over the lines of the output.
pub read_fields : List String → List (String × String) → List (String × String)
read_fields [] fields = fields
read_fields (line ∷ lines) fields = read_fields lines (
    if has_char b':' line
    then update (strip (before b':' line)) (λ old. strip (after b':' line)) fields
    else fields)

-- `_KAFKA_STATUS_KEYS`
abbrev pub status_keys : List String
status_keys = "ClusterId" ∷ "LeaderId" ∷ "LeaderEpoch" ∷ "HighWatermark" ∷ "CurrentVoters" ∷ []

-- `str(entry.get("id")) == leader_id`, for a leader that is known.
pub is_leader : Option String → Voter → Bool
is_leader none v = false
is_leader (some id) v = str_eq (some_or v.id "None") id

abbrev pub named : Voter → String → ClusterMember
named v role = record {
  name = endpoint_host v;
  node = none;
  role = some role;
  healthy = some true;
  detail = none;
  warning = none;
  lag_bytes = none;
}

-- A round of the loop over the voters, on the leader and on the member.
pub leader_from : Option String → List Voter → Option String → Option String
leader_from id [] leader = leader
leader_from id (v ∷ voters) leader =
    leader_from id voters (if is_leader id v then some (endpoint_host v) else leader)

abbrev pub voter_member : Option String → Voter → ClusterMember
voter_member id v = named v (if is_leader id v then "leader" else "voter")

-- A loop over the entries, which ends at the first that raises.
pub add_entry : Tried Voter → Tried (List Voter) → Tried (List Voter)
add_entry (raised e) later = raised e
add_entry (answered v) (raised e) = raised e
add_entry (answered v) (answered voters) = answered (v ∷ voters)

pub read_entries : List (Tried Voter) → Tried (List Voter)
read_entries [] = answered []
read_entries (v ∷ vs) = add_entry v (read_entries vs)

-- `_json_list`, and the loop over it.
pub json_list : Loaded → Tried (List Voter)
json_list (entries vs) = read_entries vs
json_list value_error = answered []
json_list (failing e) = raised e

-- The two loops in their order.
pub both_read :
    Tried (List Voter)
    → Tried (List Voter)
    → (List Voter → List Voter → ClusterService)
    → Tried ClusterService
both_read (raised e) observers service = raised e
both_read (answered voters) (raised e) service = raised e
both_read (answered voters) (answered observers) service = answered (service voters observers)

-- The service, of the fields and the entries.
pub kafka_service : List (String × String) → List Voter → List Voter → ClusterService
kafka_service fields voters observers =
    let id = lookup "LeaderId" fields in
    let leader = leader_from id voters none in
    record (unprobed "kafka") {
      name = lookup "ClusterId" fields;
      reachable = true;
      leader = leader;
      quorum_ok = some (is_some leader);
      detail = some (
          "Lag "
          <> some_or (lookup "MaxFollowerLag" fields) "?"
          <> " / "
          <> some_or (lookup "MaxFollowerLagTimeMs" fields) "?"
          <> " ms");
      members = map (voter_member id) voters ++ map (λ v. named v "observer") observers;
    }

module _ (loads : String → Loaded) where
  -- `_json_list` of a key.
  abbrev pub listed : List (String × String) → String → Tried (List Voter)
  listed fields key = json_list (loads (some_or (lookup key fields) "[]"))

  -- `parse_kafka_quorum`, of the fields.
  pub parse_fields : List (String × String) → Tried ClusterService
  parse_fields fields =
      if any (λ key. has_key key fields) status_keys
      then both_read (listed fields "CurrentVoters") (listed fields "CurrentObservers")
          (kafka_service fields)
      else answered (unprobed "kafka")

  -- `parse_kafka_quorum`
  pub parse_kafka_quorum : String → Tried ClusterService
  parse_kafka_quorum output = parse_fields (read_fields (splitlines output) [])

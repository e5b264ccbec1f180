-- ===== src/Clusters/Tests.antt =====
-- collectors/clusters.py on one small cluster of each kind.
use terminal_status_panel.Base.{
  ℕ, ◌≡◌, refl, ◌⊎◌, Bool, true, false, Option, none, some, List, [], ◌∷◌, String, ltb, any, Elem,
  contains, lstrip_char, str_eq, if◌then◌else◌,
}
use terminal_status_panel.Base.Dict.{lookup, has_key}
use terminal_status_panel.Clusters.{
  Tried, answered, raised, Container, Index, Patterns, Exec, unprobed, is_match, container_names,
  excluded, kind_for_service, locate_member,
}
use terminal_status_panel.Clusters.Members.{
  IsFirst, locate_member-IsFirst, kind_for_service-is_match,
}
use terminal_status_panel.Clusters.Mongo.{Hello}
use terminal_status_panel.Clusters.Kafka.{Loaded, entries, status_keys, listed, parse_kafka_quorum}
use terminal_status_panel.Clusters.Kafka.Leader.{IsRead, fields, parse_kafka_quorum_leader}
use terminal_status_panel.Clusters.Hosts.{Peer, Ran, rustfs_endpoints, rustfs_service}
use terminal_status_panel.Clusters.Hosts.Majority.{Reports, rustfs_service-Reports}
use terminal_status_panel.Clusters.Probes.{Outside, ProbeSettings, probe_cluster, cached}
use terminal_status_panel.Clusters.Probes.Verdicts.{probe_cluster-kind, cached_again}

abbrev ascii_digit : ℕ → Bool
ascii_digit c = ltb 47 c

abbrev no_number : String → Option ℕ
no_number s = if str_eq s "0" then some 0 else if str_eq s "30" then some 48 else none

abbrev hello : Hello
hello = record {
  set = some "rs0";
  me = some "b";
  primary = some "a";
  hosts = "a" ∷ "b" ∷ [];
  passives = "b" ∷ [];
  arbiters = "c" ∷ [];
  states = [];
}

abbrev one_voter : String → Loaded
one_voter text = entries (
    answered (record { id = some "1"; endpoints = "CONTROLLER://node-a:9093" ∷ [] })
    ∷ raised "'int' object has no attribute 'get'"
    ∷ [])

abbrev status : String
status = "LeaderId: 1\nCurrentVoters: [{}, 2]\n"

parse_kafka_quorum_leader_example :
    ((any (λ key. has_key key (fields one_voter status)) status_keys ≡ false)
      × (parse_kafka_quorum one_voter status ≡ answered (unprobed "kafka")))
    ⊎ ((any (λ key. has_key key (fields one_voter status)) status_keys ≡ true)
        × IsRead
            (listed one_voter (fields one_voter status) "CurrentVoters")
            (listed one_voter (fields one_voter status) "CurrentObservers")
            (parse_kafka_quorum one_voter status))
parse_kafka_quorum_leader_example = parse_kafka_quorum_leader one_voter status

abbrev peers : List Peer
peers =
    record { hostname = some "b"; connected = some "1"; state = none }
    ∷ record { hostname = some "c"; connected = some "0"; state = none }
    ∷ []

abbrev store : Container
store = record {
  name = some "/demo_rustfs.1";
  names = [];
  labels = [];
  config = some (record {
    labels = none;
    env = "RUSTFS_VOLUMES=https://a:9000/data https://b:9000/data" ∷ [];
  });
  inspected = none;
}

abbrev all_well : Exec
all_well c command = answered (0, "200")

rustfs_service-Reports_example :
    Reports
      (rustfs_endpoints store "https")
      (rustfs_service all_well (λ count. "1.0") store (rustfs_endpoints store "https") 1)
rustfs_service-Reports_example = rustfs_service-Reports all_well (λ count. "1.0") store "https" 1

abbrev index : Index
index = record {
  containers = answered (store ∷ []);
  services = raised "no manager";
  host = answered (some "node-a");
}

abbrev rustfs : Patterns
rustfs = record { match = "rustfs" ∷ []; exclude = "-ui" ∷ [] }

locate_member-IsFirst_example :
    IsFirst (λ s. s) index rustfs (store ∷ []) (locate_member (λ s. s) index "rustfs" rustfs)
locate_member-IsFirst_example =
    locate_member-IsFirst (λ s. s) index "rustfs" rustfs (store ∷ []) refl

abbrev kinds : List (String × List String)
kinds = ("kafka", "kafka" ∷ []) ∷ ("rustfs", "minio" ∷ "rustfs" ∷ []) ∷ []

store_named : container_names store ≡ "demo_rustfs.1" ∷ []
unfolding container_names lstrip_char
store_named = refl

store_kept : excluded (λ s. s) ("demo_rustfs.1" ∷ []) ("proxy" ∷ []) ≡ false
unfolding excluded contains
store_kept = refl

store_kind : kind_for_service (λ s. s) kinds ("proxy" ∷ []) "demo_rustfs" ≡ some "rustfs"
unfolding kind_for_service excluded contains
store_kind = refl

kind_for_service-is_match_example :
    (patterns : List String) × Elem ("rustfs", patterns) kinds
    × (is_match (λ s. s) (record { match = patterns; exclude = "proxy" ∷ [] }) store ≡ true)
kind_for_service-is_match_example =
    kind_for_service-is_match (λ s. s) kinds ("proxy" ∷ []) "demo_rustfs" "rustfs" "demo_rustfs.1"
      ".1" store store_named refl store_kept store_kind

abbrev outside : Outside
outside = record {
  run = all_well;
  lower = λ s. s;
  is_decimal = ascii_digit;
  int16 = no_number;
  load_hello = λ s. answered hello;
  load_voters = one_voter;
  share = λ timeout count. "1.0";
  peer_status = λ timeout. Ran.not_found;
  volume_status = λ timeout. Ran.not_found;
  peers_of = λ s. answered peers;
  volumes_of = λ s. answered [];
}

abbrev settings : ProbeSettings
settings = record {
  postgres = "postgres" ∷ [];
  standalone = false;
  mongodb = "mongo" ∷ [];
  kafka = "kafka" ∷ [];
  kafka_config = "";
  rustfs = "rustfs" ∷ [];
  scheme = "https";
  exclude = [];
}

probe_cluster-kind_example :
    (probe_cluster outside settings (some index) "rustfs" 2000).kind ≡ "rustfs"
probe_cluster-kind_example = probe_cluster-kind outside settings (some index) "rustfs" 2000

abbrev down : Tried ℕ
down = raised "timed out"

cached_again_example :
    (cached "info" (answered 3) (cached "info" down []).1 ≡ cached "info" down [])
    × (lookup "services" (cached "info" down []).1 ≡ lookup "services" [])
cached_again_example = cached_again "info" "services" down (answered 3) [] refl

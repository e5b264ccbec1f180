-- ===== src/Clusters/Probes.antt =====
-- collectors/clusters.py: the probes, from the shared index to the verdict on a kind, and the
-- index's cache.
pub mod Verdicts
use terminal_status_panel.Base.{
  ℕ, ◌-◌, ◌/◌, Bool, true, false, Option, none, some, List, [], ◌∷◌, String, ◌<>◌, max, nonempty,
  or_text, before, strip, after_last, str_eq, if◌then◌else◌,
}
use terminal_status_panel.Base.Dict.{lookup, has_key, update}
use terminal_status_panel.Model.Health.{ClusterMember, ClusterService}
use terminal_status_panel.Clusters.{
  Tried, answered, raised, Container, Index, Patterns, Exec, on_member, on_answer, unprobed, broken,
  container_name, service_name, note_extras, locate_member, exec_text,
}
use terminal_status_panel.Clusters.Postgres.{parse_pg_state}
use terminal_status_panel.Clusters.Mongo.{Hello, parse_mongo_hello, mongo_command}
use terminal_status_panel.Clusters.Kafka.{Loaded, parse_kafka_quorum, kafka_command}
use terminal_status_panel.Clusters.Hosts.{
  Peer, Volume, Ran, gluster, probe_glusterfs, rustfs_endpoints, load_full_attributes,
  rustfs_service,
}

-- `ProbeSettings`
pub record ProbeSettings : Type 0 where
  pub postgres : List String
  pub standalone : Bool
  pub mongodb : List String
  pub kafka : List String
  pub kafka_config : String
  pub rustfs : List String
  pub scheme : String
  pub exclude : List String

-- `ProbeSettings.kinds`
abbrev pub kinds : ProbeSettings → List (String × List String)
kinds s =
    ("postgres", s.postgres)
    ∷ ("mongodb", s.mongodb)
    ∷ ("kafka", s.kafka)
    ∷ ("rustfs", s.rustfs)
    ∷ []

-- What the probes call outside this program: the exec, Python's `lower`, `int(s, 16)`, `\d`, JSON and
-- XML, curl's `-m` argument for a timeout shared by so many endpoints, and the two runs of gluster
-- under a time limit in milliseconds.
pub record Outside : Type 0 where
  pub run : Exec
  pub lower : String → String
  pub is_decimal : ℕ → Bool
  pub int16 : String → Option ℕ
  pub load_hello : String → Tried Hello
  pub load_voters : String → Loaded
  pub share : ℕ → ℕ → String
  pub peer_status : ℕ → Ran
  pub volume_status : ℕ → Ran
  pub peers_of : String → Tried (List Peer)
  pub volumes_of : String → Tried (List Volume)

module _ (o : Outside) (settings : ProbeSettings) where
  abbrev pub patterns : List String → Patterns
  patterns match = record { match = match; exclude = settings.exclude }

  -- `_probe_postgres_standalone`
  pub probe_standalone : Container → ℕ → ClusterService
  probe_standalone c extras =
      on_answer "postgres" (exec_text o.run c ("pg_isready" ∷ [])) (λ output.
        note_extras
          (record (unprobed "postgres") {
            name = nonempty (some (service_name c));
            reachable = true;
            quorum_ok = some true;
            detail = some (
                "standalone, "
                <> or_text (some (after_last " - " (strip output))) "accepting connections");
          })
          extras)

  abbrev pub probe_failover : Container → ℕ → ClusterService
  probe_failover c extras =
      on_answer "postgres" (exec_text o.run c ("pg_autoctl" ∷ "show" ∷ "state" ∷ [])) (λ output.
        note_extras
          (record (parse_pg_state o.is_decimal o.int16 output) {
            name = nonempty (some (before b'_' (container_name c)));
          })
          extras)

  -- `probe_postgres`
  pub probe_postgres : Index → ClusterService
  probe_postgres index =
      on_member (locate_member o.lower index "postgres" (patterns settings.postgres)) (λ c extras.
        if settings.standalone then probe_standalone c extras else probe_failover c extras)

  -- `probe_mongodb`
  pub probe_mongodb : Index → ℕ → ClusterService
  probe_mongodb index timeout =
      on_member (locate_member o.lower index "mongodb" (patterns settings.mongodb)) (λ c extras.
        on_answer "mongodb" (exec_text o.run c (mongo_command timeout)) (λ output.
          on_answer "mongodb" (parse_mongo_hello o.load_hello output)
            (λ service. note_extras service extras)))

  -- `probe_kafka`
  pub probe_kafka : Index → ClusterService
  probe_kafka index =
      on_member (locate_member o.lower index "kafka" (patterns settings.kafka)) (λ c extras.
        on_answer "kafka" (exec_text o.run c (kafka_command settings.kafka_config)) (λ output.
          on_answer "kafka" (parse_kafka_quorum o.load_voters output)
            (λ service. note_extras service extras)))

  -- `probe_rustfs`
  pub probe_rustfs : Index → ℕ → ClusterService
  probe_rustfs index timeout =
      on_member (locate_member o.lower index "rustfs" (patterns settings.rustfs)) (λ sparse extras.
        let c = load_full_attributes sparse in
        rustfs_service o.run (o.share timeout) c (rustfs_endpoints c settings.scheme) extras)

  abbrev pub with_index : Option Index → String → (Index → ClusterService) → ClusterService
  with_index none kind probe = broken kind "RuntimeError: no Docker client"
  with_index (some index) kind probe = probe index

  -- `probe_cluster`, over the probes of `_PROBES`, with the timeout in milliseconds.
  pub probe_cluster : Option Index → String → ℕ → ClusterService
  probe_cluster index kind timeout =
      if str_eq kind "postgres"
      then with_index index kind probe_postgres
      else if str_eq kind "mongodb"
      then with_index index kind (λ i. probe_mongodb i timeout)
      else if str_eq kind "kafka"
      then with_index index kind probe_kafka
      else if str_eq kind "glusterfs"
      then (let per_call = max 100 (timeout / 2) in
          probe_glusterfs o.peers_of o.volumes_of (gluster (o.peer_status per_call))
            (gluster (o.volume_status per_call)))
      else if str_eq kind "rustfs"
      then with_index index kind (λ i. probe_rustfs i timeout)
      else broken kind "unknown kind"

module _ {A : Type 0} where
  abbrev pub remembered :
      String
      → Tried A
      → List (String × Tried A)
      → Option (Tried A)
      → Tried A × List (String × Tried A)
  remembered key fetched cache none = (fetched, update key (λ old. fetched) cache)
  remembered key fetched cache (some answer) = (answer, cache)

  -- `ContainerIndex._cached`: the answer, and the cache behind it. `fetched` is what the client would
  -- answer now.
  pub cached : String → Tried A → List (String × Tried A) → Tried A × List (String × Tried A)
  cached key fetched cache = remembered key fetched cache (lookup key cache)

-- ===== src/Clusters/Probes/Verdicts.antt =====
-- collectors/clusters.py: every verdict names the kind that was asked for.
use text.Mathlib.TextEquality.{eq_iff}
use terminal_status_panel.Base.{
  ℕ, ◌≡◌, refl, ap, sym, ◌∙◌, inl, inr, Bool, true, false, Option, none, some, List, String, str_eq,
  Bool-cases, Option-cases, if◌then◌else◌,
}
use terminal_status_panel.Base.Dict.{lookup, update, lookup-update, lookup-update_other}
use terminal_status_panel.Model.Health.{ClusterService}
use terminal_status_panel.Clusters.{Tried, Index}
use terminal_status_panel.Clusters.Members.{
  note_extras-kind, locate_member-Names, on_member-kind, on_answer-kind,
}
use terminal_status_panel.Clusters.Postgres.Verdict.{parse_pg_state-kind}
use terminal_status_panel.Clusters.Mongo.Members.{parse_mongo_hello-kind}
use terminal_status_panel.Clusters.Kafka.Leader.{parse_kafka_quorum-kind}
use terminal_status_panel.Clusters.Hosts.Majority.{rustfs_service-kind, probe_glusterfs-kind}
use terminal_status_panel.Clusters.Probes.{
  Outside, ProbeSettings, patterns, probe_standalone, probe_postgres, probe_mongodb, probe_kafka,
  probe_rustfs, with_index, probe_cluster, remembered, cached,
}

same : (kind name : String) → str_eq kind name ≡ true → name ≡ kind
same kind name e = sym ((eq_iff kind name).0 e)

branch-kind :
    (kind : String) (b : Bool) (x y : ClusterService)
    → (b ≡ true → x.kind ≡ kind)
    → y.kind ≡ kind
    → (if b then x else y).kind ≡ kind
branch-kind kind true x y h k = h refl
branch-kind kind false x y h k = k

module _ (o : Outside) (settings : ProbeSettings) where
  probe_postgres-kind : (i : Index) → (probe_postgres o settings i).kind ≡ "postgres"
  unfolding probe_postgres probe_standalone
  probe_postgres-kind i =
      on_member-kind "postgres" _ _
        (locate_member-Names o.lower i "postgres" (patterns o settings settings.postgres))
        (λ c n. elim (Bool-cases settings.standalone) [
          | inl e ↦ rw e (on_answer-kind "postgres" _ _ (λ output. note_extras-kind _ n))
          | inr e ↦ rw e (
              on_answer-kind "postgres" _ _
                (λ output. note_extras-kind _ n ∙ parse_pg_state-kind o.is_decimal o.int16 output))
        ])

  probe_mongodb-kind :
      (i : Index) (timeout : ℕ) → (probe_mongodb o settings i timeout).kind ≡ "mongodb"
  unfolding probe_mongodb
  probe_mongodb-kind i timeout =
      on_member-kind "mongodb" _ _
        (locate_member-Names o.lower i "mongodb" (patterns o settings settings.mongodb))
        (λ c n.
          on_answer-kind "mongodb" _ _
            (λ output. parse_mongo_hello-kind o.load_hello output _ (λ s. note_extras-kind s n)))

  probe_kafka-kind : (i : Index) → (probe_kafka o settings i).kind ≡ "kafka"
  unfolding probe_kafka
  probe_kafka-kind i =
      on_member-kind "kafka" _ _
        (locate_member-Names o.lower i "kafka" (patterns o settings settings.kafka))
        (λ c n.
          on_answer-kind "kafka" _ _
            (λ output. parse_kafka_quorum-kind o.load_voters output _ (λ s. note_extras-kind s n)))

  probe_rustfs-kind :
      (i : Index) (timeout : ℕ) → (probe_rustfs o settings i timeout).kind ≡ "rustfs"
  unfolding probe_rustfs
  probe_rustfs-kind i timeout =
      on_member-kind "rustfs" _ _
        (locate_member-Names o.lower i "rustfs" (patterns o settings settings.rustfs))
        (λ c n. rustfs_service-kind o.run _ _ _ n)

  with_index-kind :
      (i : Option Index) (kind : String) (probe : Index → ClusterService)
      → ((index : Index) → (probe index).kind ≡ kind)
      → (with_index o settings i kind probe).kind ≡ kind
  with_index-kind none kind probe h = refl
  with_index-kind (some index) kind probe h = h index

  -- The verdict on a kind names that kind, whatever kind is asked for, whether there is a Docker
  -- client, whichever container is found, and whatever the commands answer or raise.
  pub probe_cluster-kind :
      (i : Option Index) (kind : String) (timeout : ℕ)
      → (probe_cluster o settings i kind timeout).kind ≡ kind
  unfolding probe_cluster
  probe_cluster-kind i kind timeout =
      branch-kind kind (str_eq kind "postgres") _ _
        (λ e. with_index-kind i kind _ (λ x. probe_postgres-kind x ∙ same kind "postgres" e))
        (branch-kind kind (str_eq kind "mongodb") _ _
          (λ e.
            with_index-kind i kind _ (λ x. probe_mongodb-kind x timeout ∙ same kind "mongodb" e))
          (branch-kind kind (str_eq kind "kafka") _ _
            (λ e. with_index-kind i kind _ (λ x. probe_kafka-kind x ∙ same kind "kafka" e))
            (branch-kind kind (str_eq kind "glusterfs") _ _
              (λ e. probe_glusterfs-kind o.peers_of o.volumes_of _ _ ∙ same kind "glusterfs" e)
              (branch-kind kind (str_eq kind "rustfs") _ _
                (λ e.
                  with_index-kind i kind _
                    (λ x. probe_rustfs-kind x timeout ∙ same kind "rustfs" e))
                refl))))

module _ {A : Type 0} where
  -- What the index gives for a key it gives again, whatever the client would answer by then, and an
  -- exception is remembered like an answer. The other keys keep what they have.
  pub cached_again :
      (key other : String) (now later : Tried A) (cache : List (String × Tried A))
      → str_eq key other ≡ false
      → (cached key later (cached key now cache).1 ≡ cached key now cache)
        × (lookup other (cached key now cache).1 ≡ lookup other cache)
  unfolding cached lookup update
  cached_again key other now later cache h = elim (Option-cases (lookup key cache)) [
    | inl e ↦
        let cache' = update key (λ old. now) cache in
        let first : cached key now cache ≡ (now, cache') = ap (remembered key now cache) e in
        (
          ap (λ r. cached key later r.1) first
              ∙ ap (remembered key later cache') (lookup-update key (λ old. now) cache)
              ∙ sym first,
          ap (λ r. lookup other r.1) first ∙ lookup-update_other key other (λ old. now) cache h,
        )
    | inr (answer, e) ↦
        let first : cached key now cache ≡ (answer, cache) = ap (remembered key now cache) e in
        (
          ap (λ r. cached key later r.1) first ∙ ap (remembered key later cache) e ∙ sym first,
          ap (λ r. lookup other r.1) first,
        )
  ]

-- ===== src/Clusters/Kafka/Leader.antt =====
-- collectors/clusters.py, `parse_kafka_quorum`: the verdict against the members listed.
use terminal_status_panel.Base.{
  ◌≡◌, refl, ap, sym, ◌∙◌, ◌⊎◌, inl, inr, Bool, true, false, ◌||◌, Option, none, some, List, [],
  ◌∷◌, ◌++◌, map, any, String, str_eq, splitlines, or_text, is_some, or_assoc, or_true,
  or_false_right, Bool-cases, if◌then◌else◌,
}
use terminal_status_panel.Base.Dict.{lookup, has_key}
use terminal_status_panel.Model.Health.{ClusterMember, ClusterService}
use terminal_status_panel.Clusters.{Tried, answered, raised, on_answer, unprobed}
use terminal_status_panel.Clusters.Kafka.{
  Loaded, both_read, listed, parse_fields, endpoint_host, Voter, status_keys, is_leader, named,
  leader_from, voter_member, kafka_service, parse_kafka_quorum, read_fields,
}

abbrev pub leads : ClusterMember → Bool
leads m = str_eq (or_text m.role "") "leader"

any-append :
    {A : Type 0} (p : A → Bool) (xs ys : List A) → any p (xs ++ ys) ≡ (any p xs || any p ys)
any-append p [] ys = refl
any-append p (x ∷ xs) ys =
    ap (λ b. p x || b) (any-append p xs ys) ∙ sym (or_assoc (p x) (any p xs) (any p ys))

leader_name : (b : Bool) → str_eq (or_text (some (if b then "leader" else "voter")) "") "leader" ≡ b
leader_name true = refl
leader_name false = refl

leads-voter : (id : Option String) (v : Voter) → leads (voter_member id v) ≡ is_leader id v
leads-voter id v = leader_name (is_leader id v)

is_some-or :
    (b : Bool) (x : String) (leader : Option String)
    → is_some (if b then some x else leader) ≡ (is_some leader || b)
is_some-or true x leader = sym (or_true (is_some leader))
is_some-or false x none = refl
is_some-or false x (some l) = refl

any-leader_from :
    (id : Option String) (vs : List Voter) (leader : Option String)
    → is_some (leader_from id vs leader) ≡ (is_some leader || any leads (map (voter_member id) vs))
unfolding leader_from
any-leader_from id [] none = refl
any-leader_from id [] (some l) = refl
any-leader_from id (v ∷ vs) leader =
    let more = any leads (map (voter_member id) vs) in
    any-leader_from id vs _
    ∙ ap (λ b. b || more) (is_some-or (is_leader id v) _ leader)
    ∙ or_assoc (is_some leader) (is_leader id v) more
    ∙ ap (λ b. is_some leader || (b || more)) (sym (leads-voter id v))

any-observers : (vs : List Voter) → any leads (map (λ v. named v "observer") vs) ≡ false
any-observers [] = refl
any-observers (v ∷ vs) = any-observers vs

-- What is said of a service that was reached: the verdict is whether it has a leader, which is so
-- just if one of its members has the role `leader`; the members are the voters and the observers.
abbrev pub IsReached : List Voter → List Voter → ClusterService → Type 0
IsReached voters observers s =
    (s.reachable ≡ true)
    × (s.quorum_ok ≡ some (is_some s.leader))
    × (is_some s.leader ≡ any leads s.members)
    × (map (λ m. m.name) s.members ≡ map endpoint_host voters ++ map endpoint_host observers)

names-members :
    (id : Option String) (voters observers : List Voter)
    → map (λ m. m.name) (map (voter_member id) voters ++ map (λ v. named v "observer") observers)
      ≡ map endpoint_host voters ++ map endpoint_host observers
names-members id [] [] = refl
names-members id [] (v ∷ observers) =
    ap (λ xs. endpoint_host v ∷ xs) (names-members id [] observers)
names-members id (v ∷ voters) observers =
    ap (λ xs. endpoint_host v ∷ xs) (names-members id voters observers)

kafka_service-IsReached :
    (fields : List (String × String)) (voters observers : List Voter)
    → IsReached voters observers (kafka_service fields voters observers)
unfolding kafka_service
kafka_service-IsReached fields voters observers =
    let id = lookup "LeaderId" fields in
    (
      refl,
      refl,
      any-leader_from id voters none
          ∙ sym (
              any-append leads (map (voter_member id) voters)
                (map (λ v. named v "observer") observers)
              ∙ ap (λ b. any leads (map (voter_member id) voters) || b) (any-observers observers)
              ∙ or_false_right (any leads (map (voter_member id) voters))),
      names-members id voters observers,
    )

-- The two lists were read and the service is reached; or reading one of them raised.
abbrev pub IsRead : Tried (List Voter) → Tried (List Voter) → Tried ClusterService → Type 0
IsRead voters observers r =
    ((vs : List Voter) × (os : List Voter) × (s : ClusterService) × (voters ≡ answered vs)
      × (observers ≡ answered os)
      × (r ≡ answered s)
      × IsReached vs os s)
    ⊎ ((e : String) × ((voters ≡ raised e) ⊎ (observers ≡ raised e)) × (r ≡ raised e))

both_read-IsRead :
    (fields : List (String × String)) (voters observers : Tried (List Voter))
    → IsRead voters observers (both_read voters observers (kafka_service fields))
unfolding both_read
both_read-IsRead fields (raised e) observers = inr (e, inl refl, refl)
both_read-IsRead fields (answered vs) (raised e) = inr (e, inr refl, refl)
both_read-IsRead fields (answered vs) (answered os) =
    inl (vs, os, _, refl, refl, refl, kafka_service-IsReached fields vs os)

module _ (loads : String → Loaded) (output : String) where
  abbrev pub fields : List (String × String)
  fields = read_fields (splitlines output) []

  -- Output without any of the five keys is a service that was not reached and of which nothing is
  -- said. For any other, voters or observers that cannot be read, as an entry that is no object,
  -- raise their exception. Where both are read the service is reached, has the voters and then the
  -- observers as its members, and its verdict is whether it has a leader, which is so just if one of
  -- these members has the role `leader`.
  pub parse_kafka_quorum_leader :
      ((any (λ key. has_key key fields) status_keys ≡ false)
        × (parse_kafka_quorum loads output ≡ answered (unprobed "kafka")))
      ⊎ ((any (λ key. has_key key fields) status_keys ≡ true)
          × IsRead
              (listed loads fields "CurrentVoters")
              (listed loads fields "CurrentObservers")
              (parse_kafka_quorum loads output))
  unfolding parse_kafka_quorum parse_fields
  parse_kafka_quorum_leader = elim (Bool-cases (any (λ key. has_key key fields) status_keys)) [
    | inr e ↦ inl (e, rw e refl)
    | inl e ↦ inr (
      e,
      rw e (
          both_read-IsRead fields (listed loads fields "CurrentVoters")
            (listed loads fields "CurrentObservers")),
    )
  ]

-- The exception, or a service of the kind.
abbrev IsKafka : Tried ClusterService → Type 0
IsKafka (raised e) = Unit
IsKafka (answered s) = s.kind ≡ "kafka"

both_read-IsKafka :
    (fields : List (String × String)) (voters observers : Tried (List Voter))
    → IsKafka (both_read voters observers (kafka_service fields))
unfolding both_read kafka_service
both_read-IsKafka _ (raised e) observers = tt
both_read-IsKafka _ (answered vs) (raised e) = tt
both_read-IsKafka _ (answered vs) (answered os) = refl

parse_kafka_quorum-IsKafka :
    (loads : String → Loaded) (output : String) → IsKafka (parse_kafka_quorum loads output)
unfolding parse_kafka_quorum parse_fields
parse_kafka_quorum-IsKafka loads output =
    let fields = read_fields (splitlines output) [] in
    elim (Bool-cases (any (λ key. has_key key fields) status_keys)) [
      | inl e ↦ rw (IsKafka, e) (both_read-IsKafka fields _ _)
      | inr e ↦ rw (IsKafka, e) refl
    ]

judged-kind :
    (t : Tried ClusterService) (judge : ClusterService → ClusterService)
    → IsKafka t
    → ((s : ClusterService) → (judge s).kind ≡ s.kind)
    → (on_answer "kafka" t judge).kind ≡ "kafka"
judged-kind (raised e) judge h k = refl
judged-kind (answered s) judge h k = k s ∙ h

pub parse_kafka_quorum-kind :
    (loads : String → Loaded) (output : String) (judge : ClusterService → ClusterService)
    → ((s : ClusterService) → (judge s).kind ≡ s.kind)
    → (on_answer "kafka" (parse_kafka_quorum loads output) judge).kind ≡ "kafka"
parse_kafka_quorum-kind loads output judge h =
    judged-kind (parse_kafka_quorum loads output) judge (parse_kafka_quorum-IsKafka loads output) h

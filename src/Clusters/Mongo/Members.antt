-- ===== src/Clusters/Mongo/Members.antt =====
-- collectors/clusters.py, `parse_mongo_hello`: which hosts are listed, and what is said of each.
use text.Mathlib.TextEquality.{eq_iff}
use terminal_status_panel.Base.{
  ◌≡◌, refl, ap, sym, ◌∙◌, inl, inr, true, false, ◌||◌, some, List, [], ◌∷◌, ◌++◌, map, String,
  str_eq, distinct, mem-append, distinct-snoc, mem, is_some, nonempty, or_assoc, or_false_right,
  Bool-cases,
}
use terminal_status_panel.Model.Health.{ClusterService}
use terminal_status_panel.Clusters.{Tried, answered, raised, on_answer}
use terminal_status_panel.Clusters.Mongo.{
  Hello, add_hosts, mongo_hosts, mongo_member, is_unknown, measured, parse_mongo_hello,
  mongo_service,
}

mem-same : (x y : String) (xs : List String) → str_eq x y ≡ true → mem x xs ≡ mem y xs
mem-same x y xs e = ap (λ z. mem z xs) ((eq_iff x y).0 e)

mem-add_hosts :
    (x : String) (hosts more : List String)
    → mem x (add_hosts hosts more) ≡ (mem x hosts || mem x more)
unfolding add_hosts
mem-add_hosts x hosts [] = sym (or_false_right (mem x hosts))
mem-add_hosts x hosts (h ∷ more) = elim (Bool-cases (mem h hosts)) [
  | inl e ↦ rw e (
      mem-add_hosts x hosts more ∙ (elim (Bool-cases (str_eq h x)) [
        | inl same ↦
            let there = sym (mem-same h x hosts same) ∙ e in
            ap (λ b. b || mem x more) there ∙ sym (ap (λ b. b || (str_eq h x || mem x more)) there)
        | inr apart ↦ sym (ap (λ b. mem x hosts || (b || mem x more)) apart)
      ]))
  | inr e ↦ rw e (
      mem-add_hosts x (hosts ++ (h ∷ [])) more
      ∙ ap (λ b. b || mem x more)
          (mem-append x hosts (h ∷ []) ∙ ap (λ b. mem x hosts || b) (or_false_right (str_eq h x)))
      ∙ or_assoc (mem x hosts) (str_eq h x) (mem x more))
]

distinct-add_hosts :
    (hosts more : List String) → distinct hosts ≡ true → distinct (add_hosts hosts more) ≡ true
unfolding add_hosts
distinct-add_hosts hosts [] d = d
distinct-add_hosts hosts (h ∷ more) d = elim (Bool-cases (mem h hosts)) [
  | inl e ↦ rw e (distinct-add_hosts hosts more d)
  | inr e ↦ rw e (distinct-add_hosts (hosts ++ (h ∷ [])) more (distinct-snoc h hosts e d))
]

names_listed :
    (h : Hello) (hosts : List String) → map (λ m. m.name) (map (mongo_member h) hosts) ≡ hosts
unfolding mongo_member
names_listed h [] = refl
names_listed h (host ∷ hosts) = ap (λ xs. host ∷ xs) (names_listed h hosts)

-- For a replica set whose voting members are listed once each, every voting member, every passive
-- one and every arbiter is listed, nothing else is, and no host is listed twice. The set has a quorum
-- just if it names a primary.
pub mongo_service-members :
    (h : Hello) (host : String)
    → is_unknown h ≡ false
    → distinct h.hosts ≡ true
    → (mem host (map (λ m. m.name) ((mongo_service h).members))
        ≡ (mem host h.hosts || mem host h.passives || mem host h.arbiters))
      × (distinct (map (λ m. m.name) ((mongo_service h).members)) ≡ true)
      × ((mongo_service h).quorum_ok ≡ some (is_some (nonempty h.primary)))
unfolding mongo_service mongo_hosts
mongo_service-members h host e d =
    let hosts = add_hosts (add_hosts h.hosts h.passives) h.arbiters in
    (
      rw e (
          ap (mem host) (names_listed h hosts)
          ∙ mem-add_hosts host (add_hosts h.hosts h.passives) h.arbiters
          ∙ ap (λ b. b || mem host h.arbiters) (mem-add_hosts host h.hosts h.passives)),
      rw e (
          ap distinct (names_listed h hosts)
          ∙ distinct-add_hosts (add_hosts h.hosts h.passives) h.arbiters
              (distinct-add_hosts h.hosts h.passives d)),
      rw e refl,
    )

mongo_service-kind : (h : Hello) → (mongo_service h).kind ≡ "mongodb"
unfolding mongo_service
mongo_service-kind h = elim (Bool-cases (is_unknown h)) [ inl e ↦ rw e refl | inr e ↦ rw e refl ]

measured-kind :
    (t : Tried Hello) (judge : ClusterService → ClusterService)
    → ((s : ClusterService) → (judge s).kind ≡ s.kind)
    → (on_answer "mongodb" (measured t) judge).kind ≡ "mongodb"
measured-kind (raised e) judge h = refl
measured-kind (answered hello) judge h = h (mongo_service hello) ∙ mongo_service-kind hello

pub parse_mongo_hello-kind :
    (loads : String → Tried Hello) (output : String) (judge : ClusterService → ClusterService)
    → ((s : ClusterService) → (judge s).kind ≡ s.kind)
    → (on_answer "mongodb" (parse_mongo_hello loads output) judge).kind ≡ "mongodb"
unfolding parse_mongo_hello
parse_mongo_hello-kind loads output judge h = measured-kind (loads _) judge h

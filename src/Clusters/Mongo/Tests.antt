-- ===== src/Clusters/Mongo/Tests.antt =====
-- collectors/clusters.py on a replica set with an arbiter.
use terminal_status_panel.Base.{
  distinct, ◌≡◌, refl, true, false, some, [], ◌∷◌, map, mem, is_some, nonempty, ◌||◌,
}
use terminal_status_panel.Clusters.Mongo.{Hello, is_unknown, mongo_service, mongo_hosts, add_hosts}
use terminal_status_panel.Clusters.Mongo.Members.{mongo_service-members}

abbrev hello : Hello
hello = record {
  set = some "rs0";
  me = some "b";
  primary = some "a";
  hosts = "a" ∷ "b" ∷ [];
  passives = "b" ∷ [];
  arbiters = "c" ∷ [];
  states = [];
}

hello_known : is_unknown hello ≡ false
unfolding is_unknown mongo_hosts add_hosts
hello_known = refl

mongo_service-members_example :
    (mem "c" (map (λ m. m.name) ((mongo_service hello).members))
      ≡ (mem "c" ("a" ∷ "b" ∷ []) || mem "c" ("b" ∷ []) || mem "c" ("c" ∷ [])))
    × (distinct (map (λ m. m.name) ((mongo_service hello).members)) ≡ true)
    × ((mongo_service hello).quorum_ok ≡ some (is_some (nonempty (some "a"))))
mongo_service-members_example = mongo_service-members hello "c" hello_known refl

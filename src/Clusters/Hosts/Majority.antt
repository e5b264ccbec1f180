-- ===== src/Clusters/Hosts/Majority.antt =====
-- collectors/clusters.py: the quorum of GlusterFS and of RustFS against the members listed.
use terminal_status_panel.Base.{
  ℕ, suc, ◌+◌, ◌*◌, ◌<◌, ◌≡◌, refl, ap, sym, ◌∙◌, inl, inr, Bool, true, false, ◌&&◌, ◌||◌, Option,
  none, some, List, [], ◌∷◌, ◌++◌, map, String, ltb, length, count_of, count_of-map, count_of_never,
  words, Option-cases, count_of-append, length-map, str_eq, or_text, arith, Bool-cases, ◌==◌,
  if◌then◌else◌,
}
use terminal_status_panel.Model.Health.{ClusterMember, ClusterService}
use terminal_status_panel.Clusters.{
  Container, Exec, Tried, answered, raised, exec_text, note_extras,
}
use terminal_status_panel.Clusters.Members.{note_extras-kind, on_answer-kind}
use terminal_status_panel.Clusters.Hosts.{
  Peer, Brick, Volume, is_connected, Called, printed, unavailable, failed, on_call, probe_glusterfs,
  peer_member, brick_member, parse_gluster, volumes_entry, rustfs_endpoints, is_live, judged,
  endpoint_member, rustfs_measured, rustfs_service, first_bricks, or_local, env_of, url_endpoints,
}

abbrev pub is_peer : ClusterMember → Bool
is_peer m = str_eq (or_text m.role "") "peer"

abbrev pub is_live_peer : ClusterMember → Bool
is_live_peer m = elim m.healthy [ none ↦ false | some ok ↦ ok && is_peer m ]

and_true_right : (b : Bool) → (b && true) ≡ b
and_true_right true = refl
and_true_right false = refl

and_false_right : (b : Bool) → (b && false) ≡ false
and_false_right true = refl
and_false_right false = refl

peers_counted :
    (peers : List Peer)
    → count_of is_live_peer (map peer_member peers) ≡ count_of is_connected peers
unfolding peer_member
peers_counted peers =
    count_of-map peer_member is_live_peer is_connected peers (λ p. and_true_right (is_connected p))

all_peers : (peers : List Peer) → count_of is_peer (map peer_member peers) ≡ length peers
unfolding peer_member
all_peers [] = refl
all_peers (p ∷ peers) = ap suc (all_peers peers)

no_peer : (bricks : List Brick) → count_of is_peer (map brick_member bricks) ≡ 0
unfolding brick_member
no_peer [] = refl
no_peer (b ∷ bricks) = no_peer bricks

no_live_peer : (bricks : List Brick) → count_of is_live_peer (map brick_member bricks) ≡ 0
unfolding brick_member
no_live_peer bricks =
    count_of-map brick_member is_live_peer (λ b. false) bricks (λ b. and_false_right _)
    ∙ count_of_never (λ b. false) bricks (λ b. refl)

-- The verdict on so many peers, of which so many are connected.
abbrev verdict : ℕ → ℕ → Option Bool
verdict total live = if ltb 0 total then some (ltb (total + 1) ((live + 1) * 2)) else none

add_zero : (n : ℕ) → n + 0 ≡ n
add_zero n = omega arith

-- With a peer listed, the verdict is whether the host and the healthy ones of the listed peers are
-- more than half of the host and all listed peers. Without one there is no verdict. The bricks count
-- for neither.
pub parse_gluster-quorum :
    (peers : List Peer) (volumes : List Volume)
    → let service = parse_gluster peers volumes in
      service.quorum_ok ≡ (
        if ltb 0 (count_of is_peer service.members)
        then some (
            ltb
              (count_of is_peer service.members + 1)
              ((count_of is_live_peer service.members + 1) * 2))
        else none)
unfolding parse_gluster
parse_gluster-quorum peers volumes =
    let listed = map peer_member peers in
    let bricks = map brick_member (first_bricks volumes) in
    ap (λ n. verdict n (count_of is_connected peers))
      (sym (
        count_of-append is_peer listed bricks
        ∙ ap (λ n. count_of is_peer listed + n) (no_peer (first_bricks volumes))
        ∙ add_zero (count_of is_peer listed)
        ∙ all_peers peers))
    ∙ ap (λ n. verdict (count_of is_peer (listed ++ bricks)) n)
        (sym (
          count_of-append is_live_peer listed bricks
          ∙ ap (λ n. count_of is_live_peer listed + n) (no_live_peer (first_bricks volumes))
          ∙ add_zero (count_of is_live_peer listed)
          ∙ peers_counted peers))

some_endpoint : (endpoints : List String) (local : String) → 0 < length (or_local endpoints local)
some_endpoint [] local = omega arith
some_endpoint (e ∷ endpoints) local = omega arith

rustfs_endpoints_some :
    (c : Container) (scheme : String) → 0 < length ((rustfs_endpoints c scheme).0)
unfolding rustfs_endpoints
rustfs_endpoints_some c scheme = elim (Option-cases (volumes_entry (env_of c.config))) [
  | inl e ↦ rw (length, e) (omega arith)
  | inr (raw, e) ↦ rw (length, e) (some_endpoint (url_endpoints (words raw)) _)
]

-- One member for each endpoint, and the verdict and the reach that the members give.
abbrev pub Reports : List String × Bool → ClusterService → Type 0
Reports (endpoints, guessed) s =
    (0 < length s.members)
    × (map (λ m. m.name) s.members ≡ endpoints)
    × (s.quorum_ok ≡ (
        if guessed then none else some (ltb (length s.members) (count_of is_live s.members * 2))))
    × (s.reachable ≡ ltb 0 (count_of is_live s.members))

not_zero : (n : ℕ) → 0 < n → (n == 0) ≡ false
not_zero n h = ground arith

judged-name : (e : String) (t : Tried String) → (judged e t).name ≡ e
judged-name e (answered text) = refl
judged-name e (raised error) = refl

unguessed :
    (guessed : Bool) (n : ℕ)
    → (n == 0) ≡ false
    → (verdict' : Option Bool)
    → (if guessed || n == 0 then none else verdict') ≡ (if guessed then none else verdict')
unguessed true n h v = refl
unguessed false n h v = ap (λ b. if b then none else v) h

module _ (run : Exec) (share : ℕ → String) (c : Container) where
  endpoint_member-name : (n : ℕ) (e : String) → (endpoint_member run share c n e).name ≡ e
  unfolding endpoint_member
  endpoint_member-name n e = judged-name e (exec_text run c _)

  names_listed :
      (n : ℕ) (endpoints : List String)
      → map (λ m. m.name) (map (endpoint_member run share c n) endpoints) ≡ endpoints
  names_listed n [] = refl
  names_listed n (e ∷ endpoints) =
      ap (λ x. x ∷ map (λ m. m.name) (map (endpoint_member run share c n) endpoints))
        (endpoint_member-name n e)
      ∙ ap (λ xs. e ∷ xs) (names_listed n endpoints)

  rustfs_measured-Reports :
      (endpoints : List String) (guessed : Bool)
      → 0 < length endpoints
      → Reports (endpoints, guessed) (rustfs_measured run share c (endpoints, guessed))
  unfolding rustfs_measured
  rustfs_measured-Reports endpoints guessed h =
      let ms = map (endpoint_member run share c (length endpoints)) endpoints in
      let some_member : 0 < length ms =
        rw (length-map (endpoint_member run share c (length endpoints)) endpoints) h in
      (
        some_member,
        names_listed (length endpoints) endpoints,
        unguessed guessed (length ms) (not_zero (length ms) some_member) _,
        refl,
      )

  -- The endpoints of a container are at least one, and each is listed once, in their order. There is
  -- a verdict just if the endpoints were read and not guessed: whether more than half of the listed
  -- members are live. The service is reached just if one is.
  pub rustfs_service-Reports :
      (scheme : String) (extras : ℕ)
      → Reports
          (rustfs_endpoints c scheme)
          (rustfs_service run share c (rustfs_endpoints c scheme) extras)
  unfolding rustfs_service note_extras
  rustfs_service-Reports scheme extras =
      let (endpoints, guessed) = rustfs_endpoints c scheme in
      let reports = rustfs_measured-Reports endpoints guessed (rustfs_endpoints_some c scheme) in
      elim (Bool-cases (extras == 0)) [
        | inl e ↦ rw (Reports, e) reports
        | inr e ↦ rw (Reports, e) reports
      ]

pub rustfs_service-kind :
    (run : Exec) (share : ℕ → String) (c : Container) (endpoints : List String × Bool) (extras : ℕ)
    → (rustfs_service run share c endpoints extras).kind ≡ "rustfs"
unfolding rustfs_service rustfs_measured
rustfs_service-kind run share c (endpoints, guessed) extras =
    note_extras-kind (rustfs_measured run share c (endpoints, guessed)) extras

on_call-kind :
    (t : Called String) (judge : String → ClusterService)
    → ((a : String) → (judge a).kind ≡ "glusterfs")
    → (on_call t judge).kind ≡ "glusterfs"
on_call-kind unavailable judge h = refl
on_call-kind (failed e) judge h = refl
on_call-kind (printed a) judge h = h a

pub probe_glusterfs-kind :
    (peers_of : String → Tried (List Peer)) (volumes_of : String → Tried (List Volume))
    (peer_call volume_call : Called String)
    → (probe_glusterfs peers_of volumes_of peer_call volume_call).kind ≡ "glusterfs"
unfolding probe_glusterfs parse_gluster
probe_glusterfs-kind peers_of volumes_of peer_call volume_call =
    on_call-kind peer_call _ (λ peer_xml. on_call-kind volume_call _ (λ volume_xml.
      on_answer-kind "glusterfs" (peers_of peer_xml) _
        (λ peers. on_answer-kind "glusterfs" (volumes_of volume_xml) _ (λ volumes. refl))))

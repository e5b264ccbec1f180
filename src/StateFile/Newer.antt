-- ===== src/StateFile/Newer.antt =====
-- model/host.py: a state file of a newer collector, with keys that this panel does not know.
use terminal_status_panel.Base.{
  ◌≡◌, refl, ap, ◌⊎◌, inl, inr, Option, some, List, [], ◌∷◌, All, String,
}
use terminal_status_panel.StateFile.{
  Json, array, object, Items, no_item, item, Fields, no_field, field, get, Parsed, ok, and_then,
  Floats, read_instance, read_instances, read_list, read_vrrp, read_block, read_apache,
  read_updates, read_event, read_events, read_object, read_state, from_dict,
}

-- The keys that are looked at, of the state and of each of its blocks.
abbrev pub instance_keys : List String
instance_keys = "name" ∷ "state" ∷ "base_priority" ∷ "effective_priority" ∷ "master_priority" ∷ []

abbrev pub apache_keys : List String
apache_keys = "window_s" ∷ "requests_per_s" ∷ "slots_busy" ∷ "workers_busy" ∷ "slots_finishing" ∷ []

abbrev pub updates_keys : List String
updates_keys = "checked_at" ∷ "available" ∷ "security" ∷ "source" ∷ []

abbrev pub event_keys : List String
event_keys = "count" ∷ "last" ∷ []

abbrev pub plain_keys : List String
plain_keys = "schema" ∷ "written_at" ∷ "collector" ∷ "events_window_s" ∷ "errors" ∷ []

module _ {Real : Type 0} where
  -- The objects agree at the keys; at all others they are anything, in any order.
  abbrev pub Agree : List String → Fields Real → Fields Real → Type 0
  Agree keys fs gs = All (λ key. get key fs ≡ get key gs) keys

  -- The values are equal, or objects in the relation.
  abbrev pub Differ : (Fields Real → Fields Real → Type 0) → Json Real → Json Real → Type 0
  Differ R v w =
      (v ≡ w)
      ⊎ ((fs : Fields Real) × (gs : Fields Real) × (v ≡ object fs) × (w ≡ object gs) × R fs gs)

  -- What stands at a key: absent in both, or values in the relation.
  abbrev pub DifferAt :
      (Json Real → Json Real → Type 0) → Option (Json Real) → Option (Json Real) → Type 0
  DifferAt R v w =
      (v ≡ w) ⊎ ((x : Json Real) × (y : Json Real) × (v ≡ some x) × (w ≡ some y) × R x y)

  abbrev pub InstancesDiffer : Items Real → Items Real → Type 0
  InstancesDiffer no_item no_item = Unit
  InstancesDiffer (item v vs) (item w ws) = Differ (Agree instance_keys) v w × InstancesDiffer vs ws
  InstancesDiffer _ _ = ⊥

  abbrev pub ListsDiffer : Json Real → Json Real → Type 0
  ListsDiffer v w =
      (vs : Items Real) × (ws : Items Real) × (v ≡ array vs)
      × (w ≡ array ws)
      × InstancesDiffer vs ws

  abbrev pub VrrpDiffer : Fields Real → Fields Real → Type 0
  VrrpDiffer fs gs =
      (get "source" fs ≡ get "source" gs)
      × DifferAt ListsDiffer (get "instances" fs) (get "instances" gs)

  -- The same events in the same order.
  abbrev pub EventsDiffer : Fields Real → Fields Real → Type 0
  EventsDiffer no_field no_field = Unit
  EventsDiffer (field name v more) (field other w rest) =
      (name ≡ other) × Differ (Agree event_keys) v w × EventsDiffer more rest
  EventsDiffer _ _ = ⊥

  -- The states differ in keys that are not looked at, of the state itself and of its blocks.
  abbrev pub StatesDiffer : Fields Real → Fields Real → Type 0
  StatesDiffer fs gs =
      Agree plain_keys fs gs
      × DifferAt (Differ VrrpDiffer) (get "vrrp" fs) (get "vrrp" gs)
      × DifferAt (Differ (Agree apache_keys)) (get "apache" fs) (get "apache" gs)
      × DifferAt (Differ (Agree updates_keys)) (get "updates" fs) (get "updates" gs)
      × DifferAt (Differ EventsDiffer) (get "events" fs) (get "events" gs)

  read-Differ :
      {A : Type 0} (R : Fields Real → Fields Real → Type 0) (read : Json Real → A) (v w : Json Real)
      → ((fs gs : Fields Real) → R fs gs → read (object fs) ≡ read (object gs))
      → Differ R v w
      → read v ≡ read w
  read-Differ R read v w h (inl e) = ap read e
  read-Differ R read v w h (inr (fs, gs, e, f, r)) = rw (e, f) (h fs gs r)

  read_instance_same :
      (fs gs : Fields Real)
      → Agree instance_keys fs gs
      → read_instance (object fs) ≡ read_instance (object gs)
  unfolding read_instance
  read_instance_same fs gs (n, (s, (b, (e, (m, _))))) = rw (n, s, b, e, m) refl

  read_instances_same :
      (vs ws : Items Real) → InstancesDiffer vs ws → read_instances vs ≡ read_instances ws
  unfolding read_instances
  read_instances_same no_item no_item d = refl
  read_instances_same (item v vs) (item w ws) (d, ds) =
      rw
        (
          read-Differ (Agree instance_keys) read_instance v w read_instance_same d,
          read_instances_same vs ws ds,
        )
        refl
  read_instances_same no_item (item w ws) d = absurd d
  read_instances_same (item v vs) no_item d = absurd d

  read_list_same : (v w : Option (Json Real)) → DifferAt ListsDiffer v w → read_list v ≡ read_list w
  read_list_same v w (inl e) = ap read_list e
  read_list_same v w (inr (x, y, e, f, (vs, ws, g, h, d))) =
      rw (e, f, g, h) (read_instances_same vs ws d)

  read_vrrp_same :
      (fs gs : Fields Real) → VrrpDiffer fs gs → read_vrrp (object fs) ≡ read_vrrp (object gs)
  unfolding read_vrrp
  read_vrrp_same fs gs (s, d) =
      rw (read_list_same (get "instances" fs) (get "instances" gs) d, s) refl

  -- A block is read where it stands.
  read_block_same :
      {A : Type 0} (R : Fields Real → Fields Real → Type 0) (read : Json Real → Parsed A)
      (v w : Option (Json Real))
      → ((fs gs : Fields Real) → R fs gs → read (object fs) ≡ read (object gs))
      → DifferAt (Differ R) v w
      → read_block read v ≡ read_block read w
  read_block_same R read v w h (inl e) = ap (read_block read) e
  read_block_same R read v w h (inr (x, y, e, f, inl g)) = rw (e, f, g) refl
  read_block_same R read v w h (inr (x, y, e, f, inr (fs, gs, g, k, r))) =
      rw (e, f, g, k) (ap (λ p. and_then p (λ a. ok (some a))) (h fs gs r))

  module _ (floats : Floats Real) where
    read_apache_same :
        (fs gs : Fields Real)
        → Agree apache_keys fs gs
        → read_apache floats (object fs) ≡ read_apache floats (object gs)
    unfolding read_apache
    read_apache_same fs gs (w, (r, (s, (b, (f, _))))) = rw (w, r, s, b, f) refl

    read_updates_same :
        (fs gs : Fields Real)
        → Agree updates_keys fs gs
        → read_updates floats (object fs) ≡ read_updates floats (object gs)
    unfolding read_updates
    read_updates_same fs gs (c, (a, (s, (t, _)))) = rw (c, a, s, t) refl

    read_event_same :
        (fs gs : Fields Real)
        → Agree event_keys fs gs
        → read_event floats (object fs) ≡ read_event floats (object gs)
    unfolding read_event
    read_event_same fs gs (c, (l, _)) = rw (c, l) refl

    read_events_same :
        (fs gs : Fields Real) → EventsDiffer fs gs → read_events floats fs ≡ read_events floats gs
    unfolding read_events
    read_events_same no_field no_field d = refl
    read_events_same (field name v more) (field other w rest) (n, d, ds) =
        rw
          (
            n,
            read-Differ (Agree event_keys) (read_event floats) v w read_event_same d,
            read_events_same more rest ds,
          )
          refl
    read_events_same no_field (field other w rest) d = absurd d
    read_events_same (field name v more) no_field d = absurd d

    read_state_same :
        (fs gs : Fields Real) → StatesDiffer fs gs → read_state floats fs ≡ read_state floats gs
    unfolding read_state read_object
    read_state_same fs gs ((s, (t, (c, (w, (er, _))))), v, a, u, e) =
        rw
          (
            t,
            c,
            w,
            er,
            read_block_same VrrpDiffer read_vrrp (get "vrrp" fs) (get "vrrp" gs) read_vrrp_same v,
            read_block_same (Agree apache_keys) (read_apache floats) (get "apache" fs)
                (get "apache" gs) read_apache_same a,
            read_block_same (Agree updates_keys) (read_updates floats) (get "updates" fs)
                (get "updates" gs) read_updates_same u,
          )
          (elim e [
            | inl same ↦ rw same refl
            | inr (x, y, f, g, inl same) ↦ rw (f, g, same) refl
            | inr (x, y, f, g, inr (hs, ks, h, k, d)) ↦
                rw (f, g, h, k) (rw (read_events_same hs ks d) refl)
          ])

    -- Two files with the same instances and events, in the same order, and the same values at the keys
    -- that the panel looks at, are read alike. So a key that it does not look at changes nothing,
    -- wherever it stands and whatever its value is: in the state, in the objects of its blocks, in a
    -- VRRP instance and in an event.
    pub from_dict_newer :
        (fs gs : Fields Real)
        → StatesDiffer fs gs
        → from_dict floats (object fs) ≡ from_dict floats (object gs)
    unfolding from_dict
    from_dict_newer fs gs d = rw (d.0.0, read_state_same fs gs d) refl

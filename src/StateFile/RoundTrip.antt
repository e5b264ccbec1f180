-- ===== src/StateFile/RoundTrip.antt =====
-- model/host.py: what is written is read back.
use terminal_status_panel.Base.{
  ◌≡◌, refl, Bool, true, ◌&&◌, Option, none, some, List, [], ◌∷◌, all, and_true, String,
}
use terminal_status_panel.StateFile.{
  number, ℤ, Num, real, ok, VrrpInstance, VrrpState, ApacheState, UpdateCounts, EventCount,
  HostState, Floats, finite, optional, whole_number, vrrp_instance_dict, instance_dicts, vrrp_dict,
  apache_dict, updates_dict, event_dict, event_dicts, error_dicts, to_dict, read_text, read_int,
  read_optional_int, read_instance, read_instances, read_vrrp, read_block, read_errors, read_num,
  read_optional_num, read_apache, read_updates, read_event, read_events, is_schema, read_object,
  read_time, read_state, from_dict,
}

module _ (Real : Type 0) where
  optional_int :
      (n : Option ℤ) → read_optional_int (some (optional {Real = Real} whole_number n)) ≡ ok n
  unfolding read_optional_int
  optional_int none = refl
  optional_int (some n) = refl

  instance_back : (v : VrrpInstance) → read_instance {Real = Real} (vrrp_instance_dict v) ≡ ok v
  unfolding read_instance vrrp_instance_dict read_text
  instance_back v =
      rw
        (
          optional_int v.base_priority,
          optional_int v.effective_priority,
          optional_int v.master_priority,
        )
        refl

  instances_back :
      (vs : List VrrpInstance) → read_instances {Real = Real} (instance_dicts vs) ≡ ok vs
  unfolding read_instances instance_dicts
  instances_back [] = refl
  instances_back (v ∷ vs) = rw (instance_back v, instances_back vs) refl

  vrrp_back :
      (v : Option VrrpState)
      → read_block {Real = Real} read_vrrp (some (optional vrrp_dict v)) ≡ ok v
  unfolding read_vrrp vrrp_dict read_text
  vrrp_back none = refl
  vrrp_back (some v) = rw (instances_back v.instances) refl

  errors_back :
      (es : List (String × Option String)) → read_errors {Real = Real} (error_dicts es) ≡ ok es
  unfolding read_errors error_dicts
  errors_back [] = refl
  errors_back ((name, none) ∷ es) = rw (errors_back es) refl
  errors_back ((name, some code) ∷ es) = rw (errors_back es) refl

-- Every number that stands for a measurement is finite.
module _ {Real : Type 0} (floats : Floats Real) where
  abbrev pub is_finite_or_none : Option (Num Real) → Bool
  is_finite_or_none none = true
  is_finite_or_none (some n) = finite floats n

  abbrev pub is_finite_apache : Option (ApacheState Real) → Bool
  is_finite_apache none = true
  is_finite_apache (some a) =
      finite floats a.window_s
      && (is_finite_or_none a.requests_per_s
          && (is_finite_or_none a.slots_busy && is_finite_or_none a.workers_busy))

  abbrev pub is_finite_updates : Option (UpdateCounts Real) → Bool
  is_finite_updates none = true
  is_finite_updates (some u) = finite floats u.checked_at

  abbrev pub is_finite_event : String × EventCount Real → Bool
  is_finite_event (name, e) = is_finite_or_none e.last

  abbrev pub is_finite_state : HostState Real → Bool
  is_finite_state s =
      floats.is_finite s.written_at
      && (is_finite_apache s.apache
          && (is_finite_updates s.updates && all is_finite_event s.events))

  num_back : (n : Num Real) → finite floats n ≡ true → read_num floats (some (number n)) ≡ ok n
  unfolding read_num
  num_back n h = rw h refl

  optional_num_back :
      (n : Option (Num Real))
      → is_finite_or_none n ≡ true
      → read_optional_num floats (some (optional number n)) ≡ ok n
  unfolding read_optional_num
  optional_num_back none h = refl
  optional_num_back (some n) h = rw h refl

  apache_back :
      (a : Option (ApacheState Real))
      → is_finite_apache a ≡ true
      → read_block (read_apache floats) (some (optional apache_dict a)) ≡ ok a
  unfolding read_apache apache_dict
  apache_back none h = refl
  apache_back (some a) h =
      let (window, h') = and_true (finite floats a.window_s) _ h in
      let (requests, h'') = and_true (is_finite_or_none a.requests_per_s) _ h' in
      let (slots, workers) =
        and_true (is_finite_or_none a.slots_busy) (is_finite_or_none a.workers_busy) h'' in
      rw
        (
          num_back a.window_s window,
          optional_num_back a.requests_per_s requests,
          optional_num_back a.slots_busy slots,
          optional_num_back a.workers_busy workers,
          optional_int Real a.slots_finishing,
        )
        refl

  updates_back :
      (u : Option (UpdateCounts Real))
      → is_finite_updates u ≡ true
      → read_block (read_updates floats) (some (optional updates_dict u)) ≡ ok u
  unfolding read_updates updates_dict read_int read_text
  updates_back none h = refl
  updates_back (some u) h = rw (num_back u.checked_at h) refl

  events_back :
      (es : List (String × EventCount Real))
      → all is_finite_event es ≡ true
      → read_events floats (event_dicts es) ≡ ok es
  unfolding read_events event_dicts read_event event_dict read_int
  events_back [] h = refl
  events_back ((name, e) ∷ es) h =
      let (last, rest) = and_true (is_finite_or_none e.last) (all is_finite_event es) h in
      rw (optional_num_back e.last last, events_back es rest) refl

  time_back :
      (t : Real) → floats.is_finite t ≡ true → read_time floats (some (number (real t))) ≡ ok t
  unfolding read_time
  time_back t h = rw h refl

  -- A state whose measurements are finite is read back from what is written as it was.
  pub from_dict-to_dict :
      (s : HostState Real) → is_finite_state s ≡ true → from_dict floats (to_dict s) ≡ ok s
  unfolding from_dict to_dict is_schema read_state read_text read_int read_object
  from_dict-to_dict s h =
      let (time, h') = and_true (floats.is_finite s.written_at) _ h in
      let (apache, h'') = and_true (is_finite_apache s.apache) _ h' in
      let (updates, events) =
        and_true (is_finite_updates s.updates) (all is_finite_event s.events) h'' in
      rw
        (
          time_back s.written_at time,
          errors_back Real s.errors,
          vrrp_back Real s.vrrp,
          apache_back s.apache apache,
          updates_back s.updates updates,
          events_back s.events events,
        )
        refl

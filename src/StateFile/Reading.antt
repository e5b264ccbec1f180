-- ===== src/StateFile/Reading.antt =====
-- model/host.py: what a state that was read can be relied on for, and the keys that do not count.
use terminal_status_panel.Base.{
  ◌≡◌, refl, subst, Bool, true, false, ◌&&◌, Option, none, some, all, InSome, inl, inr, Bool-cases,
  if◌then◌else◌,
}
use terminal_status_panel.StateFile.{
  ℤ, pos, whole, real, Json, null, bool, number, text, array, object, Fields, no_field, field, get,
  Parsed, ok, malformed, unknown_schema, and_then, UpdateCounts, HostState, Floats, finite,
  read_text, read_int, read_optional_int, or_default, whole_number, read_block, read_errors,
  read_vrrp, read_num, read_optional_num, read_apache, read_updates, read_event, read_events,
  is_schema, read_object, read_time, read_state, from_dict,
}
use terminal_status_panel.StateFile.RoundTrip.{
  is_finite_or_none, is_finite_apache, is_finite_updates, is_finite_event, is_finite_state,
}

-- The predicate holds of what was read, if something was.
abbrev Holds : {A : Type 0} → (A → Type 0) → Parsed A → Type 0
Holds P (ok a) = P a
Holds P unknown_schema = Unit
Holds P malformed = Unit

holds_then :
    {A B : Type 0} (Q : A → Type 0) (P : B → Type 0) (p : Parsed A) (next : A → Parsed B)
    → Holds Q p
    → ((a : A) → Q a → Holds P (next a))
    → Holds P (and_then p next)
holds_then Q P (ok a) next h k = k a h
holds_then Q P unknown_schema next h k = tt
holds_then Q P malformed next h k = tt

-- Nothing is asked of what was read.
holds_any :
    {A B : Type 0} (P : B → Type 0) (p : Parsed A) (next : A → Parsed B)
    → ((a : A) → Holds P (next a))
    → Holds P (and_then p next)
holds_any P (ok a) next k = k a
holds_any P unknown_schema next k = tt
holds_any P malformed next k = tt

abbrev Finite : {Real : Type 0} → Floats Real → HostState Real → Type 0
Finite floats s = is_finite_state floats s ≡ true

both : (a b : Bool) → a ≡ true → b ≡ true → (a && b) ≡ true
both a b h k = rw (h, k) refl

checked :
    {A : Type 0} (P : A → Type 0) (b : Bool) (a : A)
    → (b ≡ true → P a)
    → Holds P (if b then ok a else malformed)
checked P true a h = h refl
checked P false a h = tt

module _ {Real : Type 0} (floats : Floats Real) where
  num_finite : (v : Option (Json Real)) → Holds (λ n. finite floats n ≡ true) (read_num floats v)
  unfolding read_num
  num_finite (some (number n)) = checked _ (finite floats n) n (λ h. h)
  num_finite none = tt
  num_finite (some null) = tt
  num_finite (some (bool b)) = tt
  num_finite (some (text s)) = tt
  num_finite (some (array xs)) = tt
  num_finite (some (object fs)) = tt

  optional_num_finite :
      (v : Option (Json Real))
      → Holds (λ n. is_finite_or_none floats n ≡ true) (read_optional_num floats v)
  unfolding read_optional_num
  optional_num_finite (some (number n)) = checked _ (finite floats n) (some n) (λ h. h)
  optional_num_finite none = refl
  optional_num_finite (some null) = refl
  optional_num_finite (some (bool b)) = tt
  optional_num_finite (some (text s)) = tt
  optional_num_finite (some (array xs)) = tt
  optional_num_finite (some (object fs)) = tt

  apache_finite :
      (v : Json Real) → Holds (λ a. is_finite_apache floats (some a) ≡ true) (read_apache floats v)
  unfolding read_apache
  apache_finite (object fs) =
      holds_then _ _ (read_num floats (get "window_s" fs)) _ (num_finite (get "window_s" fs))
        (λ w hw.
          holds_then _ _ (read_optional_num floats (get "requests_per_s" fs)) _
            (optional_num_finite (get "requests_per_s" fs))
            (λ r hr.
              holds_then _ _ (read_optional_num floats (get "slots_busy" fs)) _
                (optional_num_finite (get "slots_busy" fs))
                (λ s hs.
                  holds_then _ _ (read_optional_num floats (get "workers_busy" fs)) _
                    (optional_num_finite (get "workers_busy" fs))
                    (λ b hb.
                      holds_any (λ a. is_finite_apache floats (some a) ≡ true)
                        (read_optional_int (get "slots_finishing" fs)) _
                        (λ f. both _ _ hw (both _ _ hr (both _ _ hs hb)))))))
  apache_finite null = tt
  apache_finite (bool b) = tt
  apache_finite (number n) = tt
  apache_finite (text s) = tt
  apache_finite (array xs) = tt

  updates_finite :
      (v : Json Real) → Holds (λ u. finite floats u.checked_at ≡ true) (read_updates floats v)
  unfolding read_updates
  updates_finite (object fs) =
      holds_then _ _ (read_num floats (get "checked_at" fs)) _ (num_finite (get "checked_at" fs))
        (λ c hc. holds_any Checked (read_int (get "available" fs)) _ (λ a.
          holds_any Checked (read_int (get "security" fs)) _
            (λ s. holds_any Checked (read_text (get "source" fs)) _ (λ t. hc))))
    where
      Checked : UpdateCounts Real → Type 0
      Checked u = finite floats u.checked_at ≡ true
  updates_finite null = tt
  updates_finite (bool b) = tt
  updates_finite (number n) = tt
  updates_finite (text s) = tt
  updates_finite (array xs) = tt

  event_finite :
      (v : Json Real) → Holds (λ e. is_finite_or_none floats e.last ≡ true) (read_event floats v)
  unfolding read_event
  event_finite (object fs) =
      holds_any (λ e. is_finite_or_none floats e.last ≡ true) (read_int (get "count" fs)) _
        (λ c.
          holds_then _ _ (read_optional_num floats (get "last" fs)) _
            (optional_num_finite (get "last" fs)) (λ l hl. hl))
  event_finite null = tt
  event_finite (bool b) = tt
  event_finite (number n) = tt
  event_finite (text s) = tt
  event_finite (array xs) = tt

  events_finite :
      (fs : Fields Real)
      → Holds (λ es. all (is_finite_event floats) es ≡ true) (read_events floats fs)
  unfolding read_events
  events_finite no_field = refl
  events_finite (field name v more) =
      holds_then _ _ (read_event floats v) _ (event_finite v) (λ e he.
        holds_then _ _ (read_events floats more) _ (events_finite more) (λ es hes. both _ _ he hes))

  block_finite :
      {A : Type 0} (P : Option A → Type 0) (read : Json Real → Parsed A) (v : Option (Json Real))
      → P none
      → ((j : Json Real) → Holds (λ a. P (some a)) (read j))
      → Holds P (read_block read v)
  block_finite P read none h k = h
  block_finite P read (some null) h k = h
  block_finite P read (some (bool b)) h k =
      holds_then _ _ (read (bool b)) _ (k (bool b)) (λ a ha. ha)
  block_finite P read (some (number n)) h k =
      holds_then _ _ (read (number n)) _ (k (number n)) (λ a ha. ha)
  block_finite P read (some (text s)) h k =
      holds_then _ _ (read (text s)) _ (k (text s)) (λ a ha. ha)
  block_finite P read (some (array xs)) h k =
      holds_then _ _ (read (array xs)) _ (k (array xs)) (λ a ha. ha)
  block_finite P read (some (object fs)) h k =
      holds_then _ _ (read (object fs)) _ (k (object fs)) (λ a ha. ha)

  module _
      (of_int-finite : (n : ℤ) → InSome (λ f. floats.is_finite f ≡ true) (floats.of_int n)) where
    whole_finite :
        (o : Option Real)
        → InSome (λ f. floats.is_finite f ≡ true) o
        → Holds (λ f. floats.is_finite f ≡ true) (elim o [ none ↦ malformed | some f ↦ ok f ])
    whole_finite none h = tt
    whole_finite (some f) h = h

    time_finite :
        (v : Option (Json Real)) → Holds (λ t. floats.is_finite t ≡ true) (read_time floats v)
    unfolding read_time
    time_finite none = tt
    time_finite (some null) = tt
    time_finite (some (bool b)) = tt
    time_finite (some (number (whole n))) = whole_finite (floats.of_int n) (of_int-finite n)
    time_finite (some (number (real f))) = checked _ (floats.is_finite f) f (λ h. h)
    time_finite (some (text s)) = tt
    time_finite (some (array xs)) = tt
    time_finite (some (object fs)) = tt

    state_finite : (fs : Fields Real) → Holds (Finite floats) (read_state floats fs)
    unfolding read_state
    state_finite fs =
        let P : HostState Real → Type 0 = Finite floats in
        holds_then _ P (read_time floats (get "written_at" fs)) _
          (time_finite (get "written_at" fs))
          (λ t ht. holds_any P (read_text (or_default (get "collector" fs) (text ""))) _ (λ c.
            holds_any P
              (read_int (or_default (get "events_window_s" fs) (whole_number (pos 43200)))) _
              (λ w. holds_any P (read_object floats (get "events" fs)) _ (λ event_fields.
                holds_any P (read_object floats (get "errors" fs)) _ (λ error_fields.
                  holds_any P (read_errors error_fields) _ (λ errors.
                    holds_any P (read_block read_vrrp (get "vrrp" fs)) _ (λ v.
                      holds_then _ P (read_block (read_apache floats) (get "apache" fs)) _
                        (block_finite (λ a. is_finite_apache floats a ≡ true) (read_apache floats)
                          (get "apache" fs) refl apache_finite)
                        (λ a ha.
                          holds_then _ P (read_block (read_updates floats) (get "updates" fs)) _
                            (block_finite (λ u. is_finite_updates floats u ≡ true)
                              (read_updates floats) (get "updates" fs) refl updates_finite)
                            (λ u hu.
                              holds_then _ P (read_events floats event_fields) _
                                (events_finite event_fields)
                                (λ es hes. both _ _ ht (both _ _ ha (both _ _ hu hes))))))))))))

    accepted : (v : Json Real) → Holds (Finite floats) (from_dict floats v)
    unfolding from_dict
    accepted (object fs) = elim (Bool-cases (is_schema floats (get "schema" fs))) [
      | inl e ↦ rw (Holds, e) (state_finite fs)
      | inr e ↦ rw (Holds, e) tt
    ]
    accepted null = tt
    accepted (bool b) = tt
    accepted (number n) = tt
    accepted (text s) = tt
    accepted (array xs) = tt

    -- Where `float` of an integer is finite or an error, every state that is read has finite
    -- measurements only: a NaN or an infinity in the file is refused.
    pub from_dict-finite :
        (v : Json Real) (s : HostState Real)
        → from_dict floats v ≡ ok s
        → is_finite_state floats s ≡ true
    from_dict-finite v s e = subst (Holds (Finite floats)) e (accepted v)

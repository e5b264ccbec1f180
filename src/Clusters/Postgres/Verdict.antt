-- ===== src/Clusters/Postgres/Verdict.antt =====
-- collectors/clusters.py, `parse_pg_state`: the quorum against the members shown, a member on
-- another timeline, and the lag.
use terminal_status_panel.Base.{
  ℕ, ◌*◌, ◌<◌, ◌≡◌, refl, ap, sym, subst, ◌∙◌, ◌⊎◌, inl, inr, Bool, true, false, not, Option, none,
  some, List, [], ◌∷◌, map, String, ltb, leb, leb→lt, length, count_of, str_eq, is_some, or_text,
  All, Elem, length-map, Elem-map, count_of-map, InSome, true-false, and_true, not-true, Bool-cases,
  splitlines, arith, if◌then◌else◌,
}
use terminal_status_panel.Model.Health.{ClusterMember}
use terminal_status_panel.Clusters.{unprobed}
use terminal_status_panel.Clusters.Postgres.{
  Row, read_rows, primary_row, primary_timeline, primary_lsn, pg_diverged, pg_warning, lsn_position,
  distance, lag_distance, trails, with_lag, is_healthy, member_of, pg_service, pg_judged,
  parse_pg_state,
}

positive : (here there : Option ℕ) → InSome (λ n. 0 < n) (distance here there)
positive none there = tt
positive (some a) none = tt
positive (some a) (some b) = elim (Bool-cases (leb b a)) [
  | inl h ↦ rw (InSome, h) tt
  | inr h ↦ rw (InSome, h) (let h' = leb→lt b a h in omega arith)
]

module _ (int16 : String → Option ℕ) where
  -- What the loop does with a member: nothing, or a lag for one without a warning.
  with_lag-cases :
      (p : Option String) (m : ClusterMember)
      → (with_lag int16 p m ≡ m)
        ⊎ ((primary : String) × (p ≡ some primary)
            × (trails primary m ≡ true)
            × (with_lag int16 p m ≡ record m {
              warning = some "lag";
              lag_bytes = lag_distance int16 (or_text m.detail "") primary;
            }))
  unfolding with_lag
  with_lag-cases none m = inl refl
  with_lag-cases (some p) m = elim (Bool-cases (trails p m)) [
    | inl e ↦ inr (
      p,
      refl,
      e,
      ap
          (λ b.
            if b
            then record m {
              warning = some "lag";
              lag_bytes = lag_distance int16 (or_text m.detail "") p;
            }
            else m)
          e,
    )
    | inr e ↦ inl (
        ap
          (λ b.
            if b
            then record m {
              warning = some "lag";
              lag_bytes = lag_distance int16 (or_text m.detail "") p;
            }
            else m)
          e)
  ]

  with_lag-is_healthy :
      (p : Option String) (m : ClusterMember) → is_healthy (with_lag int16 p m) ≡ is_healthy m
  with_lag-is_healthy p m = elim (with_lag-cases p m) [
    | inl e ↦ ap is_healthy e
    | inr (primary, e, t, e') ↦ ap is_healthy e'
  ]

  count_of-with_lag :
      (p : Option String) (ms : List ClusterMember)
      → count_of is_healthy (map (with_lag int16 p) ms) ≡ count_of is_healthy ms
  count_of-with_lag p ms =
      count_of-map (with_lag int16 p) is_healthy is_healthy ms (with_lag-is_healthy p)

  lag_distance-positive :
      (here there : String) → InSome (λ n. 0 < n) (lag_distance int16 here there)
  unfolding lag_distance
  lag_distance-positive here there = positive (lsn_position int16 here) (lsn_position int16 there)

trails-secondary :
    (p : String) (m : ClusterMember)
    → trails p m ≡ true
    → str_eq (or_text m.role "") "secondary" ≡ true
trails-secondary p m h =
    (and_true _ _ (and_true _ _ (and_true _ (not (is_some m.warning)) h).0).0).0

unwarned : (p : String) (m : ClusterMember) → trails p m ≡ true → is_some m.warning ≡ false
unwarned p m h = not-true (is_some m.warning) (and_true _ (not (is_some m.warning)) h).1

pg_warning_diverged :
    (row : Row) (timeline : Option String)
    → pg_diverged row.timeline timeline ≡ true
    → is_some (pg_warning row timeline) ≡ true
unfolding pg_warning
pg_warning_diverged row timeline h = rw (is_some, h) refl

-- More than half of the members are healthy.
abbrev pub majority : List ClusterMember → Bool
majority ms = ltb (length ms) (count_of is_healthy ms * 2)

-- A lag goes with a secondary whose warning is `lag`, and is positive.
abbrev pub LagHolds : ClusterMember → Type 0
LagHolds m =
    InSome
      (λ n. (0 < n) × (m.warning ≡ some "lag") × (str_eq (or_text m.role "") "secondary" ≡ true))
      m.lag_bytes

InSome-map : {P Q : ℕ → Type 0} (o : Option ℕ) → ((n : ℕ) → P n → Q n) → InSome P o → InSome Q o
InSome-map none f h = tt
InSome-map (some n) f h = f n h

module _ (is_decimal : ℕ → Bool) (int16 : String → Option ℕ) where
  with_lag-LagHolds :
      (p timeline : Option String) (row : Row)
      → LagHolds (with_lag int16 p (member_of is_decimal int16 timeline row))
  unfolding member_of
  with_lag-LagHolds p timeline row =
      elim (with_lag-cases int16 p (member_of is_decimal int16 timeline row)) [
        | inl e ↦ subst LagHolds (sym e) tt
        | inr (primary, e, t, e') ↦ subst LagHolds (sym e') (
            InSome-map (lag_distance int16 _ primary)
              (λ n h.
                (h, refl, trails-secondary primary (member_of is_decimal int16 timeline row) t))
              (lag_distance-positive int16 _ primary))
      ]

  lags :
      (p timeline : Option String) (rows : List Row)
      → All LagHolds (map (with_lag int16 p) (map (member_of is_decimal int16 timeline) rows))
  lags p timeline [] = tt
  lags p timeline (row ∷ rows) = (with_lag-LagHolds p timeline row, lags p timeline rows)

  judged :
      (rows : List Row)
      → ((rows ≡ []) × (pg_judged is_decimal int16 rows ≡ unprobed "postgres"))
        ⊎ (((pg_judged is_decimal int16 rows).reachable ≡ true)
            × (length ((pg_judged is_decimal int16 rows).members) ≡ length rows)
            × ((pg_judged is_decimal int16 rows).quorum_ok
                ≡ some (majority ((pg_judged is_decimal int16 rows).members)))
            × All LagHolds ((pg_judged is_decimal int16 rows).members))
  unfolding pg_judged pg_service
  judged [] = inl (refl, refl)
  judged (row ∷ rows) =
      let primary = primary_row (row ∷ rows) in
      let lsn = primary_lsn primary in
      let ms = map (member_of is_decimal int16 (primary_timeline primary)) (row ∷ rows) in
      let same =
        length-map (with_lag int16 lsn) ms
        ∙ length-map (member_of is_decimal int16 (primary_timeline primary)) (row ∷ rows) in
      inr (
        refl,
        same,
        ap some (
            ap (λ n. ltb n (count_of is_healthy ms * 2)) (sym same)
            ∙ ap (λ n. ltb (length (map (with_lag int16 lsn) ms)) (n * 2))
                (sym (count_of-with_lag int16 lsn ms))),
        lags lsn (primary_timeline primary) (row ∷ rows),
      )

  diverged_member :
      (lsn timeline : Option String) (row : Row)
      → pg_diverged row.timeline timeline ≡ true
      → let m = with_lag int16 lsn (member_of is_decimal int16 timeline row) in
        (m.name ≡ row.name)
        × (m.healthy ≡ some false)
        × (m.detail ≡ none)
        × (m.lag_bytes ≡ none)
        × (is_some m.warning ≡ true)
  unfolding member_of
  diverged_member lsn timeline row h =
      let m = member_of is_decimal int16 timeline row in
      let warned = pg_warning_diverged row timeline h in
      elim (with_lag-cases int16 lsn m) [
        | inl e ↦ rw e (refl, rw h, rw h, refl, warned)
        | inr (primary, e, t, e') ↦ absurd (true-false (sym warned ∙ unwarned primary m t))
      ]

  judged_diverged :
      (rows : List Row) (row : Row)
      → Elem row rows
      → pg_diverged row.timeline (primary_timeline (primary_row rows)) ≡ true
      → (m : ClusterMember) × Elem m ((pg_judged is_decimal int16 rows).members)
        × (m.name ≡ row.name)
        × (m.healthy ≡ some false)
        × (m.detail ≡ none)
        × (m.lag_bytes ≡ none)
        × (is_some m.warning ≡ true)
  unfolding pg_judged pg_service
  judged_diverged [] row shown h = absurd shown
  judged_diverged (first ∷ rows) row shown h =
      let primary = primary_row (first ∷ rows) in
      let lsn = primary_lsn primary in
      let timeline = primary_timeline primary in
      let m = member_of is_decimal int16 timeline in
      let (named, ill, hidden, no_lag, warned) = diverged_member lsn timeline row h in
      (
        with_lag int16 lsn (m row),
        Elem-map (with_lag int16 lsn) (m row) (map m (first ∷ rows))
            (Elem-map m row (first ∷ rows) shown),
        named,
        ill,
        hidden,
        no_lag,
        warned,
      )

  -- Either the output has no row, and the service is one that was not reached, without members and
  -- without a verdict on the quorum; or it is reached, its verdict is whether more than half of the
  -- members that it lists are healthy, and a member with a lag is a secondary that is warned of with
  -- `lag` and is behind by more than nothing.
  pub parse_pg_state-quorum :
      (output : String)
      → ((read_rows (splitlines output) ≡ [])
          × (parse_pg_state is_decimal int16 output ≡ unprobed "postgres"))
        ⊎ (((parse_pg_state is_decimal int16 output).reachable ≡ true)
            × (length ((parse_pg_state is_decimal int16 output).members)
                ≡ length (read_rows (splitlines output)))
            × ((parse_pg_state is_decimal int16 output).quorum_ok
                ≡ some (majority ((parse_pg_state is_decimal int16 output).members)))
            × All LagHolds ((parse_pg_state is_decimal int16 output).members))
  unfolding parse_pg_state
  parse_pg_state-quorum output = judged (read_rows (splitlines output))

  -- A row on another timeline than the primary's is shown as a member that is not healthy, without
  -- its LSN and without a lag, and with a warning.
  pub parse_pg_state_diverged :
      (output : String) (row : Row)
      → Elem row (read_rows (splitlines output))
      → pg_diverged row.timeline (primary_timeline (primary_row (read_rows (splitlines output))))
        ≡ true
      → (m : ClusterMember) × Elem m ((parse_pg_state is_decimal int16 output).members)
        × (m.name ≡ row.name)
        × (m.healthy ≡ some false)
        × (m.detail ≡ none)
        × (m.lag_bytes ≡ none)
        × (is_some m.warning ≡ true)
  unfolding parse_pg_state
  parse_pg_state_diverged output row shown h =
      judged_diverged (read_rows (splitlines output)) row shown h

pg_judged-kind :
    (is_decimal : ℕ → Bool) (int16 : String → Option ℕ) (rows : List Row)
    → (pg_judged is_decimal int16 rows).kind ≡ "postgres"
unfolding pg_judged pg_service
pg_judged-kind is_decimal int16 [] = refl
pg_judged-kind is_decimal int16 (row ∷ rows) = refl

pub parse_pg_state-kind :
    (is_decimal : ℕ → Bool) (int16 : String → Option ℕ) (output : String)
    → (parse_pg_state is_decimal int16 output).kind ≡ "postgres"
unfolding parse_pg_state
parse_pg_state-kind is_decimal int16 output =
    pg_judged-kind is_decimal int16 (read_rows (splitlines output))

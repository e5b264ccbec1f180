-- ===== src/Clusters/Postgres/Tests.antt =====
-- collectors/clusters.py on a primary and a secondary that has left its timeline.
use terminal_status_panel.Base.{
  ℕ, ◌≡◌, refl, ◌⊎◌, inl, inr, Bool, true, false, Option, none, some, [], String, ltb, length, All,
  Elem, is_some, splitlines, split_on, has_char, strip, before, after, str_eq, if◌then◌else◌,
}
use terminal_status_panel.Model.Health.{ClusterMember}
use terminal_status_panel.Clusters.{unprobed}
use terminal_status_panel.Clusters.Postgres.{
  Row, read_rows, primary_row, primary_timeline, pg_diverged, parse_pg_state, row_of,
  split_timeline,
}
use terminal_status_panel.Clusters.Postgres.Verdict.{
  majority, LagHolds, parse_pg_state-quorum, parse_pg_state_diverged,
}

abbrev table : String
table =
    "pg-a | 1 | a:1 | 5: 0/30 | rw | primary | primary\npg-b | 2 | b:1 | 4: 0/20 | ro | secondary | secondary\n"

abbrev ascii_digit : ℕ → Bool
ascii_digit c = ltb 47 c

abbrev no_number : String → Option ℕ
no_number s = if str_eq s "0" then some 0 else if str_eq s "30" then some 48 else none

parse_pg_state-quorum_example :
    ((read_rows (splitlines table) ≡ [])
      × (parse_pg_state ascii_digit no_number table ≡ unprobed "postgres"))
    ⊎ (((parse_pg_state ascii_digit no_number table).reachable ≡ true)
        × (length ((parse_pg_state ascii_digit no_number table).members)
            ≡ length (read_rows (splitlines table)))
        × ((parse_pg_state ascii_digit no_number table).quorum_ok
            ≡ some (majority ((parse_pg_state ascii_digit no_number table).members)))
        × All LagHolds ((parse_pg_state ascii_digit no_number table).members))
parse_pg_state-quorum_example = parse_pg_state-quorum ascii_digit no_number table

abbrev stray : Row
stray = record {
  name = "pg-b";
  timeline = some "4";
  lsn = "0/20";
  reported = "secondary";
  assigned = "secondary";
}

stray-Elem : Elem stray (read_rows (splitlines table))
unfolding read_rows splitlines split_on has_char strip row_of split_timeline before after
stray-Elem = inr (inl refl)

stray_diverged :
    pg_diverged stray.timeline (primary_timeline (primary_row (read_rows (splitlines table))))
    ≡ true
unfolding read_rows splitlines split_on has_char strip row_of split_timeline before after
    primary_row pg_diverged
stray_diverged = refl

parse_pg_state_diverged_example :
    (m : ClusterMember) × Elem m ((parse_pg_state ascii_digit no_number table).members)
    × (m.name ≡ "pg-b")
    × (m.healthy ≡ some false)
    × (m.detail ≡ none)
    × (m.lag_bytes ≡ none)
    × (is_some m.warning ≡ true)
parse_pg_state_diverged_example =
    parse_pg_state_diverged ascii_digit no_number table stray stray-Elem stray_diverged

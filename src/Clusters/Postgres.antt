-- ===== src/Clusters/Postgres.antt =====
-- collectors/clusters.py: the table of `pg_autoctl show state`, and `pg_isready`. `int16` is
-- Python's `int(s, 16)` on a text without a minus sign, `none` for a `ValueError`, and
-- `is_decimal` is what `\d` matches.
pub mod Verdict
mod Tests
use Prim.Native.Nat.{bit_or}
use Prim.Native.Char.{code}
use terminal_status_panel.Base.{
  ℕ, ◌+◌, ◌-◌, ◌*◌, ◌<◌, Bool, true, false, not, ◌&&◌, ◌||◌, Option, none, some, List, [], ◌∷◌, map,
  String, ◌<>◌, ltb, leb, length, count_of, str_eq, strip, is_empty, is_some, nonempty, before,
  after, has_char, split_on, splitlines, before_last, mem, or_text, ◌==◌, if◌then◌else◌,
}
use terminal_status_panel.Model.Health.{ClusterMember, ClusterService}
use terminal_status_panel.Clusters.{unprobed}

-- A row of the table: the columns that the verdicts use.
pub record Row : Type 0 where
  pub name : String
  pub timeline : Option String
  pub lsn : String
  pub reported : String
  pub assigned : String

-- `_split_timeline`
pub split_timeline : String → Option String × String
split_timeline text =
    if has_char b':' text
    then (nonempty (some (strip (before b':' text))), strip (after b':' text))
    else (none, strip text)

-- One round of the loop over the lines: the row, if the line holds one.
pub row_of : List String → Option Row
row_of (name ∷ node ∷ host_port ∷ tli_lsn ∷ connection ∷ reported ∷ assigned ∷ more) =
    let (timeline, lsn) = split_timeline tli_lsn in
    if str_eq name "Name"
    then none
    else some (record {
      name = name;
      timeline = timeline;
      lsn = lsn;
      reported = reported;
      assigned = assigned;
    })
row_of _ = none

abbrev with_row : Option Row → List Row → List Row
with_row none rows = rows
with_row (some row) rows = row ∷ rows

pub read_rows : List String → List Row
read_rows [] = []
read_rows (line ∷ lines) =
    with_row (if has_char b'|' line then row_of (map strip (split_on b'|' line)) else none)
      (read_rows lines)

-- The last row that is reported as the primary: its LSN and timeline are the loop's.
pub primary_row : List Row → Option Row
primary_row [] = none
primary_row (row ∷ rows) = elim (primary_row rows) [
  | some later ↦ some later
  | none ↦ if str_eq row.reported "primary" then some row else none
]

abbrev pub primary_timeline : Option Row → Option String
primary_timeline none = none
primary_timeline (some row) = row.timeline

abbrev pub primary_lsn : Option Row → Option String
primary_lsn none = none
primary_lsn (some row) = some row.lsn

-- `_pg_diverged`
pub pg_diverged : Option String → Option String → Bool
pg_diverged none primary = false
pg_diverged (some timeline) none = false
pg_diverged (some timeline) (some primary) = not (str_eq timeline primary)

abbrev transition : Row → Option String
transition row = if str_eq row.reported row.assigned then none else some ("→ " <> row.assigned)

abbrev foreign : Option String → Option String → String
foreign timeline primary = "TLI " <> or_text timeline "" <> "≠" <> or_text primary ""

abbrev noted : String → Option String → String
noted note none = note
noted note (some to) = note <> " " <> to

-- `_pg_warning`
pub pg_warning : Row → Option String → Option String
pg_warning row primary =
    if pg_diverged row.timeline primary
    then some (noted (foreign row.timeline primary) (transition row))
    else transition row

module _ (is_decimal : ℕ → Bool) where
  -- `\d*-` at the start of a text: what follows it.
  abbrev after_digits : String → Option String
  after_digits String.[] = none
  after_digits (String.◌∷◌ c s) =
      let rest = after_digits s in
      if is_decimal (code c) then rest else if code c == b'-' then some s else none

  abbrev without_prefix : String → String
  without_prefix (String.◌∷◌ p (String.◌∷◌ g s)) =
      if code p == b'p' && code g == b'g'
      then (elim (after_digits s) [ none ↦ String.◌∷◌ p (String.◌∷◌ g s) | some rest ↦ rest ])
      else String.◌∷◌ p (String.◌∷◌ g s)
  without_prefix s = s

  -- `_node_from_member`
  pub node_from_member : String → Option String
  node_from_member name = nonempty (some (without_prefix name))

abbrev pub distance : Option ℕ → Option ℕ → Option ℕ
distance none there = none
distance (some here) none = none
distance (some here) (some there) = if leb there here then none else some (there - here)

-- A secondary that is not where the primary is, and of which nothing else is said.
abbrev pub trails : String → ClusterMember → Bool
trails primary m =
    str_eq (or_text m.role "") "secondary"
    && not (is_empty primary)
    && not (is_some m.detail && str_eq (or_text m.detail "") primary)
    && not (is_some m.warning)

module _ (int16 : String → Option ℕ) where
  -- `_lsn_position`
  pub lsn_position : String → Option ℕ
  lsn_position lsn = elim (int16 (before b'/' lsn)) [
    | none ↦ none
    | some hi ↦ elim (int16 (after b'/' lsn)) [
      | none ↦ none
      | some lo ↦ some (bit_or (hi * 4294967296) lo)
    ]
  ]

  -- `_lag_distance`
  pub lag_distance : String → String → Option ℕ
  lag_distance member primary = distance (lsn_position member) (lsn_position primary)

  -- A round of the second loop over the members.
  pub with_lag : Option String → ClusterMember → ClusterMember
  with_lag none m = m
  with_lag (some primary) m =
      if trails primary m
      then record m { warning = some "lag"; lag_bytes = lag_distance (or_text m.detail "") primary }
      else m

-- `next((m.name for m in members if m.role == "primary"), None)`
pub leader_of : List ClusterMember → Option String
leader_of [] = none
leader_of (m ∷ members) =
    if str_eq (or_text m.role "") "primary" then some m.name else leader_of members

abbrev pub is_healthy : ClusterMember → Bool
is_healthy m = elim m.healthy [ none ↦ false | some ok ↦ ok ]

module _ (is_decimal : ℕ → Bool) (int16 : String → Option ℕ) where
  -- The member of a row, given the primary's timeline.
  pub member_of : Option String → Row → ClusterMember
  member_of primary row =
      let diverged = pg_diverged row.timeline primary in
      record {
        name = row.name;
        node = node_from_member is_decimal row.name;
        role = some row.reported;
        healthy = some (not diverged && mem row.reported ("primary" ∷ "secondary" ∷ []));
        detail = if diverged then none else some row.lsn;
        warning = pg_warning row primary;
        lag_bytes = none;
      }

  -- The service of the rows, of which there is one at least.
  pub pg_service : List Row → ClusterService
  pg_service rows =
      let primary = primary_row rows in
      let members = map (member_of (primary_timeline primary)) rows in
      record (unprobed "postgres") {
        reachable = true;
        leader = leader_of members;
        quorum_ok = some (ltb (length rows) (count_of is_healthy members * 2));
        members = map (with_lag int16 (primary_lsn primary)) members;
      }

  pub pg_judged : List Row → ClusterService
  pg_judged [] = unprobed "postgres"
  pg_judged (row ∷ rows) = pg_service (row ∷ rows)

  -- `parse_pg_state`
  pub parse_pg_state : String → ClusterService
  parse_pg_state output = pg_judged (read_rows (splitlines output))

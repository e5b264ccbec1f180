-- ===== src/Render/Verdict.antt =====
-- src/terminal_status_panel/render/verdict.py: a row of DOCKER INFOS turned into one cell.
pub mod Icons
pub mod Jobs
pub mod Cells
mod Tests
use terminal_status_panel.Base.{
  ℕ, ◌+◌, ◌/◌, Bool, true, false, not, ◌&&◌, ◌||◌, Option, none, some, List, [], ◌∷◌, ◌++◌, map,
  String, Text, codes, show_ℕ, length, any, all, sum_of, count_of, ltb, ◌==◌, str_eq, is_some,
  if◌then◌else◌,
}
use terminal_status_panel.Model.{second}
use terminal_status_panel.Model.Docker.{
  ServiceTask, task_starting, JobRun, run_failed, ServiceStatus,
}
use terminal_status_panel.Model.Health.{ClusterMember, ClusterService}

-- The glyphs that `_SEVERITY` and `_STYLES` rank.
pub data Icon : Type 0 where
  ok warn dead unknown job paused failed : Icon

pub glyph : Icon → Text
glyph ok = codes "✅"
-- the sign, the variation selector and the pad cell
glyph warn = 0x26a0 ∷ 0xfe0f ∷ 0x20 ∷ []
glyph dead = codes "💀"
glyph unknown = codes "⬜"
glyph job = codes "⏰"
glyph paused = codes "💤"
glyph failed = codes "✗"

pub style : Icon → String
style ok = ""
style warn = "yellow"
style dead = "red"
style failed = "red"
style unknown = "dim"
style job = ""
style paused = "dim"

pub severity : Icon → ℕ
severity ok = 0
severity job = 0
severity unknown = 1
severity paused = 1
severity warn = 2
severity dead = 3
severity failed = 4

pub desired_of : ServiceStatus → ℕ → ℕ
desired_of service node_count = elim service.desired_replicas [
  | some replicas ↦ replicas
  | none ↦
      let scheduled = length service.tasks + service.unassigned in
      if scheduled == 0 then node_count else scheduled
]

pub counts : List ServiceStatus → ℕ → ℕ × ℕ
counts services node_count = (
  sum_of (λ (s : ServiceStatus). s.running_replicas) services,
  sum_of (λ s. desired_of s node_count) services,
)

pub replica_icon : ℕ → ℕ → ℕ → Icon
replica_icon running desired starting =
    if desired == 0
    then paused
    else if running == 0
    then (if ltb 0 starting then warn else dead)
    else if ltb running desired
    then warn
    else ok

pub format_age : Option ℕ → Text
format_age none = codes "?"
format_age (some age) =
    let total = age / second in
    if ltb total 3600
    then show_ℕ (total / 60) ++ codes "m"
    else if ltb total 86400
    then show_ℕ (total / 3600) ++ codes "h"
    else show_ℕ (total / 86400) ++ codes "d"

-- `(age is None, age or 0)` of the first below that of the second.
abbrev pub younger : Option ℕ → Option ℕ → Bool
younger none b = false
younger (some a) none = true
younger (some a) (some b) = ltb a b

-- `min(runs, key=…)`: the first of the smallest, from a best one so far.
pub newest_run : JobRun → List JobRun → JobRun
newest_run best [] = best
newest_run best (r ∷ runs) =
    newest_run (if younger r.age_seconds best.age_seconds then r else best) runs

pub last_runs : List ServiceStatus → List JobRun
last_runs [] = []
last_runs (s ∷ services) = elim s.last_run [
  | none ↦ last_runs services
  | some r ↦ r ∷ last_runs services
]

abbrev pub ratio : ℕ → ℕ → Text
ratio running desired = show_ℕ running ++ (codes "/" ++ show_ℕ desired)

-- A resting row: the outcome of its newest run.
pub resting_cell : List JobRun → Icon × Text
resting_cell [] = (unknown, codes "never")
resting_cell (r ∷ runs) =
    let newest = newest_run r runs in
    let age = format_age newest.age_seconds in
    if run_failed newest
    then (dead, glyph failed ++ (codes " " ++ age))
    else (job, codes "ok " ++ age)

pub job_cell : List ServiceStatus → Option (Icon × Text)
job_cell services =
    if not (all (λ (s : ServiceStatus). s.job) services)
    then none
    else let (running, desired) = counts services 0 in
      if ltb 0 running
      then some (replica_icon running desired 0, ratio running desired)
      else some (resting_cell (last_runs services))

abbrev pub is_unhealthy : ClusterMember → Bool
is_unhealthy m = elim m.healthy [ none ↦ false | some h ↦ not h ]

-- The truth of an optional text of the source's.
abbrev pub has_text : Option String → Bool
has_text none = false
has_text (some s) = not (str_eq s "")

pub cluster_icon : ClusterService → Icon
cluster_icon cluster =
    if has_text cluster.error
    then failed
    else if not cluster.applicable
    then unknown
    else elim cluster.quorum_ok [
      | none ↦ unknown
      | some quorum ↦
          if not quorum then dead else if any is_unhealthy cluster.members then warn else ok
    ]

abbrev pub is_degraded : Icon → Bool
is_degraded dead = true
is_degraded warn = true
is_degraded _ = false

pub combined_icon : Icon → Icon → Icon
combined_icon replica cluster =
    if is_degraded replica && ltb (severity cluster) (severity replica) then replica else cluster

abbrev pub starting_tasks : List ServiceStatus → ℕ
starting_tasks services = sum_of (λ (s : ServiceStatus). count_of task_starting s.tasks) services

-- The icon of a row that is not all jobs.
pub row_icon : List ServiceStatus → Option String → Option ClusterService → ℕ → Icon
row_icon services kind cluster node_count =
    let (running, desired) = counts services node_count in
    let replica = replica_icon running desired (starting_tasks services) in
    elim kind [
      | none ↦ replica
      | some k ↦ elim cluster [
        | none ↦ combined_icon replica unknown
        | some c ↦ combined_icon replica (cluster_icon c)
      ]
    ]

-- `none` is the empty text of a row without services.
pub verdict_icon : List ServiceStatus → Option String → Option ClusterService → ℕ → Option Icon
verdict_icon [] kind cluster node_count = none
verdict_icon (s ∷ services) kind cluster node_count = elim (job_cell (s ∷ services)) [
  | some (icon, text) ↦ some icon
  | none ↦ some (row_icon (s ∷ services) kind cluster node_count)
]

-- rich's `Text`.
pub record Cell : Type 0 where
  pub text : Text
  pub style : String

abbrev pub cell_of : Icon → Text → Cell
cell_of icon text = record { text = glyph icon ++ (codes " " ++ text); style = style icon }

pub service_verdict : List ServiceStatus → Option String → Option ClusterService → ℕ → Cell
service_verdict [] kind cluster node_count = record { text = []; style = "" }
service_verdict (s ∷ services) kind cluster node_count = elim (job_cell (s ∷ services)) [
  | some (icon, text) ↦ cell_of icon text
  | none ↦
      let (running, desired) = counts (s ∷ services) node_count in
      elim (verdict_icon (s ∷ services) kind cluster node_count) [
        | none ↦ record { text = codes " " ++ ratio running desired; style = "" }
        | some icon ↦ cell_of icon (ratio running desired)
      ]
]

-- ===== src/Render/Verdict/Cells.antt =====
-- verdict.py: the cell shows the verdict's icon, and what a tick on a clustered row needs.
use terminal_status_panel.Base.{
  ℕ, ◌≡◌, refl, inl, inr, false, Option, none, some, List, ◌∷◌, String, Text, arith, all,
  Option-cases,
}
use terminal_status_panel.Model.Docker.{ServiceStatus}
use terminal_status_panel.Model.Health.{ClusterService}
use terminal_status_panel.Render.Verdict.{
  Icon, ok, unknown, severity, counts, replica_icon, cluster_icon, is_degraded, combined_icon,
  job_cell, starting_tasks, row_icon, verdict_icon, cell_of, ratio, service_verdict,
}

-- A row with services shows the glyph of its verdict, a space and a count or an outcome, in the
-- style of that glyph: cell and verdict never disagree.
pub service_verdict-icon :
    (s : ServiceStatus) (services : List ServiceStatus) (kind : Option String)
    (cluster : Option ClusterService) (node_count : ℕ)
    → (icon : Icon) × (rest : Text) × (verdict_icon (s ∷ services) kind cluster node_count
        ≡ some icon)
      × (service_verdict (s ∷ services) kind cluster node_count ≡ cell_of icon rest)
unfolding service_verdict verdict_icon
service_verdict-icon s services kind cluster node_count =
    elim (Option-cases (job_cell (s ∷ services))) [
      | inl e ↦
          let (running, desired) = counts (s ∷ services) node_count in
          (
            row_icon (s ∷ services) kind cluster node_count,
            ratio running desired,
            ground arith,
            ground arith,
          )
      | inr (cell, e) ↦ (cell.0, cell.1, ground arith, ground arith)
    ]

combined_icon-eq-ok :
    (replica cluster : Icon)
    → combined_icon replica cluster ≡ ok
    → (cluster ≡ ok) × (is_degraded replica ≡ false)
unfolding combined_icon severity
combined_icon-eq-ok replica cluster h = ground arith

abbrev replica : ServiceStatus → List ServiceStatus → ℕ → Icon
replica s services node_count =
    replica_icon (counts (s ∷ services) node_count).0 (counts (s ∷ services) node_count).1
      (starting_tasks (s ∷ services))

-- A row of a clustered service that is not all jobs is a tick only if a verdict of its cluster is
-- at hand and that verdict is a tick, and its own replicas are not degraded.
pub verdict_icon_ticked :
    (s : ServiceStatus) (services : List ServiceStatus) (kind : String)
    (cluster : Option ClusterService) (node_count : ℕ)
    → all (λ (s : ServiceStatus). s.job) (s ∷ services) ≡ false
    → verdict_icon (s ∷ services) (some kind) cluster node_count ≡ some ok
    → (c : ClusterService) × (cluster ≡ some c)
      × (cluster_icon c ≡ ok)
      × (is_degraded (
            replica_icon
              (counts (s ∷ services) node_count).0
              (counts (s ∷ services) node_count).1
              (starting_tasks (s ∷ services)))
          ≡ false)
unfolding verdict_icon job_cell row_icon
verdict_icon_ticked s services kind none node_count mixed h =
    let claimed = combined_icon-eq-ok (replica s services node_count) unknown in
    absurd (ground (arith, claimed))
verdict_icon_ticked s services kind (some c) node_count mixed h =
    let claimed = combined_icon-eq-ok (replica s services node_count) (cluster_icon c) in
    (c, refl, ground (arith, claimed), ground (arith, claimed))

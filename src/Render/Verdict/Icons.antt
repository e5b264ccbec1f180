-- ===== src/Render/Verdict/Icons.antt =====
-- verdict.py: how the two measurements of a row are reconciled, and what each icon states.
use terminal_status_panel.Base.{
  ℕ, ◌≤◌, ◌<◌, ◌≡◌, ◌⊎◌, ◌↔◌, max, true, false, some, arith, any, if◌then◌else◌,
}
use terminal_status_panel.Model.Health.{ClusterService}
use terminal_status_panel.Render.Verdict.{
  Icon, ok, dead, paused, severity, replica_icon, is_unhealthy, has_text, cluster_icon, is_degraded,
  combined_icon,
}

-- The reconciled icon claims as much as the cluster's, and where the replicas are measured dead or
-- degraded it claims the larger of the two severities; it is always one of the two icons.
pub combined_icon-severity :
    (replica cluster : Icon)
    → (severity (combined_icon replica cluster) ≡ (
        if is_degraded replica
        then max (severity replica) (severity cluster)
        else severity cluster))
      × ((combined_icon replica cluster ≡ replica) ⊎ (combined_icon replica cluster ≡ cluster))
unfolding combined_icon severity
combined_icon-severity replica cluster = ground arith

-- The icon is the pause exactly when nothing is wanted, dead exactly when something is wanted and
-- nothing runs or starts, and the tick exactly when something is wanted and no less runs than that.
pub replica_icon_iff :
    (running desired starting : ℕ)
    → ((replica_icon running desired starting ≡ paused) ↔ (desired ≡ 0))
      × ((replica_icon running desired starting ≡ dead)
          ↔ ((0 < desired) × (running ≡ 0) × (starting ≡ 0)))
      × ((replica_icon running desired starting ≡ ok)
          ↔ ((0 < running) × (0 < desired) × (desired ≤ running)))
unfolding replica_icon
replica_icon_iff running desired starting =
    ((ground arith, ground arith), (ground arith, ground arith), (ground arith, ground arith))

-- A cluster's icon is the tick exactly when its probe failed in no way, this node runs a member,
-- the quorum is measured and holds, and no member is measured unhealthy.
pub cluster_icon-eq-ok_iff :
    (c : ClusterService)
    → (cluster_icon c ≡ ok) ↔ (
        (has_text c.error ≡ false)
        × (c.applicable ≡ true)
        × (c.quorum_ok ≡ some true)
        × (any is_unhealthy c.members ≡ false))
unfolding cluster_icon
cluster_icon-eq-ok_iff c = (ground arith, ground arith)

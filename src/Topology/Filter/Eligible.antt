-- ===== src/Topology/Filter/Eligible.antt =====
-- What it takes for a node to pass the filter of internal/topology/scheduler.go.
use capper.Prelude.{String, false, List, Option, none, some, ◌≡◌, ◌≢◌, ◌⊎◌, All, Any}
use capper.Prelude.Int.{ℤ, pos, ◌≤ℤ◌}
use capper.Topology.{
  Node, Zone, Region, PlacementRequest, Store, NodeTaint, NodeToleration, lookup, or_blank,
  or_empty, status_ready, status_active,
}

-- A demand that a node meets: there is none, or the node states no size, or the size suffices.
abbrev pub Enough : ℤ → ℤ → Type 0
Enough required has = (required ≤ℤ pos 0) ⊎ ((has ≤ℤ pos 0) ⊎ (required ≤ℤ has))

abbrev pub InRegion : Node → String → Option Region → Type 0
InRegion n wanted none = ⊥
InRegion n wanted (some r) = ((r.id ≡ n.region_id) ⊎ (r.slug ≡ wanted)) × (r.status ≡ status_active)

abbrev pub InZone : Node → String → Option Zone → Type 0
InZone n wanted none = ⊥
InZone n wanted (some z) =
    ((z.id ≡ n.zone_id) ⊎ (z.slug ≡ wanted))
    × ((z.status ≡ status_active) ⊎ (z.status ≡ status_ready))

abbrev pub Tolerates : NodeTaint → NodeToleration → Type 0
Tolerates taint tol =
    (tol.key ≡ taint.key)
    × ((tol.value ≡ "") ⊎ (tol.value ≡ taint.value))
    × ((tol.effect ≡ "") ⊎ (tol.effect ≡ taint.effect))

abbrev pub Harmless : List NodeToleration → NodeTaint → Type 0
Harmless tols t = ((t.effect ≢ "NoSchedule") × (t.effect ≢ "NoExecute")) ⊎ Any (Tolerates t) tols

pub record Eligible (s : Store) (n : Node) (req : PlacementRequest) : Type 0 where
  pub ready : n.status ≡ status_ready
  pub in_region : (req.region ≡ "") ⊎ InRegion n req.region (s.get_region req.region)
  pub in_zone : (req.zone ≡ "") ⊎ InZone n req.zone (s.get_zone req.zone)
  pub cpu : Enough req.cpu_required n.cpu_count
  pub memory : Enough req.memory_bytes n.memory_bytes
  pub gpu : (req.gpu_required ≡ false) ⊎ (or_blank (lookup "gpu" n.labels) ≡ "true")
  pub labelled :
      All (λ (kv : String × String). or_blank (lookup kv.0 n.labels) ≡ kv.1) req.require_label
  pub schedulable : n.cordoned ≡ false
  pub roles : All (λ r. Any (λ v. v ≡ r) (or_empty (s.get_node_roles n.id))) req.required_roles
  pub taints : All (Harmless req.tolerations) (or_empty (s.get_node_taints n.id))
  pub gpus : Enough req.gpu_count n.gpu_count
  pub disk : Enough req.disk_bytes n.disk_bytes

-- ===== src/Topology/Filter.antt =====
-- `Scheduler.filter` of internal/topology/scheduler.go: the checks of a node, in the code's order.
-- `none` passes the node; a reason carries what the code writes into its message.
pub mod Eligible
use capper.Prelude.{
  String, Bool, true, false, not, ◌&&◌, ◌||◌, List, [], ◌∷◌, Option, none, some, any, str_eq,
  if◌then◌else◌,
}
use capper.Prelude.Int.{ℤ, pos, ltb_ℤ}
use capper.Topology.{
  Node, Zone, Region, PlacementRequest, Store, NodeTaint, NodeToleration, lookup, or_blank,
  or_empty, status_ready, status_active,
}

pub data Reason : Type 0 where
  node_not_ready : String → Reason
  not_in_region region_not_active not_in_zone zone_not_active insufficient_cpu : Reason
  insufficient_memory no_gpu node_cordoned insufficient_gpu_count insufficient_disk : Reason
  missing_label : String → String → Reason
  missing_role : String → Reason
  untolerated_taint : NodeTaint → Reason
  zone_not_found region_not_found : String → Reason
  store_error : Reason

-- `strSliceContains`.
pub contains : List String → String → Bool
contains ss s = any (λ v. str_eq v s) ss

-- A node with fewer than required; zero or less on either side is no limit.
pub lacks : ℤ → ℤ → Bool
lacks required has = ltb_ℤ (pos 0) required && (ltb_ℤ (pos 0) has && ltb_ℤ has required)

pub check_ready : Node → Option Reason
check_ready n = if not (str_eq n.status status_ready) then some (node_not_ready n.status) else none

region_of : Node → String → Option Region → Option Reason
region_of n wanted none = some not_in_region
region_of n wanted (some reg) =
    if not (str_eq reg.id n.region_id) && not (str_eq reg.slug wanted)
    then some not_in_region
    else if not (str_eq reg.status status_active)
    then some region_not_active
    else none

pub check_region : Store → Node → PlacementRequest → Option Reason
unfolding region_of
check_region s n req =
    if str_eq req.region "" then none else region_of n req.region (s.get_region req.region)

zone_of : Node → String → Option Zone → Option Reason
zone_of n wanted none = some not_in_zone
zone_of n wanted (some z) =
    if not (str_eq z.id n.zone_id) && not (str_eq z.slug wanted)
    then some not_in_zone
    else if not (str_eq z.status status_active) && not (str_eq z.status status_ready)
    then some zone_not_active
    else none

pub check_zone : Store → Node → PlacementRequest → Option Reason
unfolding zone_of
check_zone s n req = if str_eq req.zone "" then none else zone_of n req.zone (s.get_zone req.zone)

pub check_capacity : Node → PlacementRequest → Option Reason
unfolding lacks
check_capacity n req =
    if lacks req.cpu_required n.cpu_count
    then some insufficient_cpu
    else if lacks req.memory_bytes n.memory_bytes
    then some insufficient_memory
    else if req.gpu_required && not (str_eq (or_blank (lookup "gpu" n.labels)) "true")
    then some no_gpu
    else none

pub check_labels : Node → List (String × String) → Option Reason
check_labels n [] = none
check_labels n ((k, v) ∷ m) =
    if not (str_eq (or_blank (lookup k n.labels)) v)
    then some (missing_label k v)
    else check_labels n m

pub check_roles : List String → List String → Option Reason
check_roles roles [] = none
check_roles roles (r ∷ rs) =
    if not (contains roles r) then some (missing_role r) else check_roles roles rs

pub tolerates : NodeTaint → NodeToleration → Bool
tolerates taint tol =
    str_eq tol.key taint.key
    && ((str_eq tol.value "" || str_eq tol.value taint.value)
        && (str_eq tol.effect "" || str_eq tol.effect taint.effect))

pub check_taints : List NodeToleration → List NodeTaint → Option Reason
unfolding tolerates
check_taints tols [] = none
check_taints tols (t ∷ ts) =
    let rest = check_taints tols ts in
    if not (str_eq t.effect "NoSchedule") && not (str_eq t.effect "NoExecute")
    then rest
    else if any (tolerates t) tols
    then rest
    else some (untolerated_taint t)

-- The first check that refuses decides.
infixr 20 ◌orelse◌
abbrev pub ◌orelse◌ : Option Reason → Option Reason → Option Reason
some r orelse o = some r
none orelse o = o

pub check_roles_of : Store → Node → List String → Option Reason
check_roles_of s n [] = none
check_roles_of s n (r ∷ rs) = check_roles (or_empty (s.get_node_roles n.id)) (r ∷ rs)

pub filter : Store → Node → PlacementRequest → Option Reason
filter s n req =
    check_ready n
    orelse check_region s n req
    orelse check_zone s n req
    orelse check_capacity n req
    orelse check_labels n req.require_label
    orelse (if n.cordoned then some node_cordoned else none)
    orelse check_roles_of s n req.required_roles
    orelse check_taints req.tolerations (or_empty (s.get_node_taints n.id))
    orelse (if lacks req.gpu_count n.gpu_count then some insufficient_gpu_count else none)
    orelse (if lacks req.disk_bytes n.disk_bytes then some insufficient_disk else none)

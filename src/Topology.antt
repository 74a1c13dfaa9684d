-- ===== src/Topology.antt =====
-- The placement scheduler of internal/topology: what it reads, its filter, its score, its ranking.
-- The store behind it is an interface: `none` is a query that fails or finds nothing.
pub mod Examples
pub mod Filter
pub mod Score
pub mod Simulate
use capper.Prelude.{String, Bool, List, [], ◌∷◌, Option, none, some, str_eq, if◌then◌else◌}
use capper.Prelude.Int.{ℤ}

abbrev pub status_active : String
status_active = "active"

abbrev pub status_ready : String
status_ready = "ready"

pub record NodeTaint : Type 0 where
  pub key : String
  pub value : String
  pub effect : String

pub record NodeToleration : Type 0 where
  pub key : String
  pub value : String
  pub effect : String

-- The fields of a node, a zone and a region that the scheduler reads.
pub record Node : Type 0 where
  pub id : String
  pub realm_id : String
  pub region_id : String
  pub zone_id : String
  pub slug : String
  pub status : String
  pub labels : List (String × String)
  pub cpu_count : ℤ
  pub memory_bytes : ℤ
  pub disk_bytes : ℤ
  pub cordoned : Bool
  pub gpu_count : ℤ

pub record Zone : Type 0 where
  pub id : String
  pub slug : String
  pub status : String

pub record Region : Type 0 where
  pub id : String
  pub slug : String
  pub status : String

pub record PlacementRequest : Type 0 where
  pub cpu_required : ℤ
  pub memory_bytes : ℤ
  pub disk_bytes : ℤ
  pub gpu_required : Bool
  pub gpu_count : ℤ
  pub require_label : List (String × String)
  pub region : String
  pub zone : String
  pub anti_affinity : List (String × String)
  pub required_roles : List String
  pub preferred_roles : List String
  pub tolerations : List NodeToleration

pub record Store : Type 0 where
  pub get_zone : String → Option Zone
  pub get_region : String → Option Region
  pub list_zones : String → Option (List Zone)
  pub list_nodes : String → Option (List Node)
  pub get_node_roles : String → Option (List String)
  pub get_node_taints : String → Option (List NodeTaint)

-- Go drops the error of a query, and goes on with the empty slice.
abbrev pub or_empty {ℓ} : {A : Type ℓ} → Option (List A) → List A
or_empty none = []
or_empty (some xs) = xs

unfoldable pub lookup : String → List (String × String) → Option String
lookup k [] = none
lookup k ((j, v) ∷ m) = if str_eq j k then some v else lookup k m

-- `m[k]`: the empty string where the key is missing.
abbrev pub or_blank : Option String → String
or_blank none = ""
or_blank (some v) = v

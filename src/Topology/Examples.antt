-- ===== src/Topology/Examples.antt =====
-- The theorems on internal/topology/scheduler.go for a small cluster.
use capper.Prelude.{String, false, List, [], ◌∷◌, none, some, ◌≡◌, refl, map}
use capper.Prelude.Int.{ℤ, pos}
use mathlib.Core.List.{Perm}
use capper.Topology.{Node, Zone, Region, PlacementRequest, Store, status_ready, status_active}
use capper.Topology.Filter.{filter}
use capper.Topology.Filter.Eligible.{Eligible}
use capper.Topology.Simulate.{nodes, collect, candidate, simulate}
use capper.Topology.Simulate.Ranking.{blamed, ineligible, eligible, Ranked, simulate-Ranked}

abbrev node : String → ℤ → Node
node id cpus = record {
  id = id;
  realm_id = "realm";
  region_id = "r1";
  zone_id = "z1";
  slug = id;
  status = status_ready;
  labels = ("disk", "ssd") ∷ [];
  cpu_count = cpus;
  memory_bytes = pos 8_000_000_000;
  disk_bytes = pos 0;
  cordoned = false;
  gpu_count = pos 0;
}

abbrev cluster : List Node
cluster = node "small" (pos 2) ∷ node "large" (pos 16) ∷ []

abbrev zone : Zone
zone = record { id = "z1"; slug = "eu-1a"; status = status_active }

abbrev region : Region
region = record { id = "r1"; slug = "eu-1"; status = status_active }

abbrev store : Store
store = record {
  get_zone = λ id. some zone;
  get_region = λ id. some region;
  list_zones = λ id. some (zone ∷ []);
  list_nodes = λ id. some cluster;
  get_node_roles = λ id. some ("compute" ∷ []);
  get_node_taints = λ id. none;
}

abbrev request : PlacementRequest
request = record {
  cpu_required = pos 4;
  memory_bytes = pos 1_000_000_000;
  disk_bytes = pos 0;
  gpu_required = false;
  gpu_count = pos 0;
  require_label = ("disk", "ssd") ∷ [];
  region = "";
  zone = "eu-1a";
  anti_affinity = [];
  required_roles = "compute" ∷ [];
  preferred_roles = [];
  tolerations = [];
}

collected : collect store request ≡ nodes cluster
unfolding collect
collected = refl

simulate-Ranked_example :
    Perm
      (simulate store request).candidates
      (map (candidate store request) (eligible store request cluster))
    × Ranked (simulate store request).candidates
    × (map blamed (simulate store request).rejections
        ≡ map (λ n. (n.id, filter store n request)) (ineligible store request cluster))
simulate-Ranked_example = simulate-Ranked store request cluster collected

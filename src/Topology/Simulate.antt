-- ===== src/Topology/Simulate.antt =====
-- `Scheduler.Simulate` of internal/topology/scheduler.go: collect the nodes, filter and score them,
-- and rank the candidates.
pub mod Ranking
use capper.Prelude.{
  ℕ, String, Bool, true, false, not, List, [], ◌∷◌, ◌++◌, Option, none, some, str_eq, if◌then◌else◌,
}
use capper.Prelude.Int.{ℤ, ltb_ℤ}
use capper.Prelude.Sort.{insertion_sort}
use capper.Topology.{Node, Zone, Region, PlacementRequest, Store, or_empty}
use capper.Topology.Filter.{Reason, zone_not_found, region_not_found, store_error, filter}
use capper.Topology.Score.{Note, score}

pub record Candidate : Type 0 where
  pub realm_id : String
  pub region_id : String
  pub zone_id : String
  pub node_id : String
  pub region : String
  pub zone : String
  pub node : String
  pub score : ℤ
  pub reasons : List Note

-- `node_id` and `node` are blank where no node is to blame.
pub record Rejection : Type 0 where
  pub node_id : String
  pub node : String
  pub reason : Reason

pub record PlacementResult : Type 0 where
  pub allowed : Bool
  pub candidates : List Candidate
  pub rejections : List Rejection

pub data Collected : Type 0 where
  nodes : List Node → Collected
  refused : Reason → Collected

pub nodes_of_zones : Store → List Zone → List Node
nodes_of_zones s [] = []
nodes_of_zones s (z ∷ zs) = or_empty (s.list_nodes z.id) ++ nodes_of_zones s zs

listed : Option (List Node) → Collected
listed none = refused store_error
listed (some ns) = nodes ns

in_zone : Store → String → Option Zone → Collected
in_zone s wanted none = refused (zone_not_found wanted)
in_zone s wanted (some z) = listed (s.list_nodes z.id)

in_region : Store → String → Option Region → Collected
in_region s wanted none = refused (region_not_found wanted)
in_region s wanted (some r) = nodes (nodes_of_zones s (or_empty (s.list_zones r.id)))

unfoldable pub collect : Store → PlacementRequest → Collected
unfolding in_zone in_region listed
collect s req =
    if not (str_eq req.zone "")
    then in_zone s req.zone (s.get_zone req.zone)
    else if not (str_eq req.region "")
    then in_region s req.region (s.get_region req.region)
    else listed (s.list_nodes "")

-- The slug of what a lookup finds; its error is dropped, and leaves it blank.
zone_slug : Option Zone → String
zone_slug none = ""
zone_slug (some z) = z.slug

region_slug : Option Region → String
region_slug none = ""
region_slug (some r) = r.slug

pub candidate : Store → PlacementRequest → Node → Candidate
unfolding zone_slug region_slug
candidate s req n = record {
  realm_id = n.realm_id;
  region_id = n.region_id;
  zone_id = n.zone_id;
  node_id = n.id;
  region = region_slug (s.get_region n.region_id);
  zone = zone_slug (s.get_zone n.zone_id);
  node = n.slug;
  score = (score s n req).0;
  reasons = (score s n req).1;
}

-- The loop over the nodes: the candidates and the rejections, in the order of the nodes. The maps
-- from ids to regions and zones only keep what the queries return.
pub sift : Store → PlacementRequest → List Node → List Candidate × List Rejection
sift s req [] = ([], [])
sift s req (n ∷ ns) =
    let (cs, rs) = sift s req ns in
    elim (filter s n req) [
      | none ↦ (candidate s req n ∷ cs, rs)
      | some why ↦ (cs, record { node_id = n.id; node = n.slug; reason = why } ∷ rs)
    ]

pub outranks : Candidate → Candidate → Bool
outranks a b = ltb_ℤ b.score a.score

non_empty : List Candidate → Bool
non_empty [] = false
non_empty (c ∷ cs) = true

pub simulate : Store → PlacementRequest → PlacementResult
unfolding non_empty
simulate s req = elim (collect s req) [
  | refused why ↦ record {
    allowed = false;
    candidates = [];
    rejections = record { node_id = ""; node = ""; reason = why } ∷ [];
  }
  | nodes ns ↦
      let (cs, rs) = sift s req ns in
      let ranked = insertion_sort outranks cs in
      record { allowed = non_empty ranked; candidates = ranked; rejections = rs }
]

-- ===== src/Topology/Simulate/Ranking.antt =====
-- What a placement by internal/topology/scheduler.go returns, against the nodes that are eligible.
use mathlib.Core.List.{Perm}
use capper.Prelude.{
  Bool, true, false, not, String, List, [], ◌∷◌, Option, none, some, ◌≡◌, map, keep, arith, refl,
}
use capper.Prelude.Int.{◌≤ℤ◌}
use capper.Prelude.Sort.{insertion_sort, insertion_sort-perm, insertion_sort-Sorted, Sorted}
use capper.Topology.{Node, PlacementRequest, Store}
use capper.Topology.Filter.{Reason, filter}
use capper.Topology.Simulate.{
  Candidate, Rejection, nodes, collect, candidate, sift, outranks, simulate,
}

passes : Option Reason → Bool
passes none = true
passes (some r) = false

pub eligible : Store → PlacementRequest → List Node → List Node
unfolding passes
eligible s req ns = keep (λ n. passes (filter s n req)) ns

sift-eligible :
    (s : Store) (req : PlacementRequest) (ns : List Node)
    → (sift s req ns).0 ≡ map (candidate s req) (eligible s req ns)
unfolding sift eligible
sift-eligible s req [] = refl
sift-eligible s req (n ∷ ns) = ground (arith, sift-eligible s req ns)

pub ineligible : Store → PlacementRequest → List Node → List Node
unfolding passes
ineligible s req ns = keep (λ n. not (passes (filter s n req))) ns

-- Who is rejected, and why.
abbrev pub blamed : Rejection → String × Option Reason
blamed r = (r.node_id, some r.reason)

sift-ineligible :
    (s : Store) (req : PlacementRequest) (ns : List Node)
    → map blamed (sift s req ns).1 ≡ map (λ n. (n.id, filter s n req)) (ineligible s req ns)
unfolding sift ineligible
sift-ineligible s req [] = refl
sift-ineligible s req (n ∷ ns) = ground (arith, sift-ineligible s req ns)

-- No candidate has a higher score than one that stands before it.
abbrev pub Ranked : List Candidate → Type 0
Ranked = Sorted λ a b. b.score ≤ℤ a.score

rank-Ranked : (cs : List Candidate) → Ranked (insertion_sort outranks cs)
unfolding outranks
rank-Ranked cs =
    insertion_sort-Sorted outranks (λ a b. b.score ≤ℤ a.score) (λ x y h. ground arith)
      (λ x y h. ground arith) (λ x y z h k. omega arith) cs

-- Where the nodes can be collected, the candidates are the nodes that pass the filter, each once and
-- with its score, by falling score; the rejections are the other nodes, each once, in the order in which
-- they were collected, and each with the reason that the filter gives for it.
pub simulate-Ranked :
    (s : Store) (req : PlacementRequest) (ns : List Node)
    → collect s req ≡ nodes ns
    → Perm (simulate s req).candidates (map (candidate s req) (eligible s req ns))
      × Ranked (simulate s req).candidates
      × (map blamed (simulate s req).rejections
          ≡ map (λ n. (n.id, filter s n req)) (ineligible s req ns))
unfolding simulate
simulate-Ranked s req ns e =
    rw (e, simulate)
      (
        rw (sift-eligible s req ns) (insertion_sort-perm outranks _),
        rank-Ranked (sift s req ns).0,
        sift-ineligible s req ns,
      )

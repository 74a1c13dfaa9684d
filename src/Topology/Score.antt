-- ===== src/Topology/Score.antt =====
-- `Scheduler.score` of internal/topology/scheduler.go.
use capper.Prelude.{
  ℕ, suc, ◌*◌, String, Bool, ◌&&◌, List, [], ◌∷◌, ◌++◌, str_eq, if◌then◌else◌, arith, ◌≢◌,
}
use capper.Prelude.Int.{ℤ, pos, negsuc, ltb_ℤ, leb_ℤ, add64, wrap64, ◌≤ℤ◌}
use capper.Topology.{Node, PlacementRequest, Store, lookup, or_blank, or_empty, status_ready}
use capper.Topology.Filter.{contains}

pub data Note : Type 0 where
  ready ample_cpu ample_memory label_match gpu_available eligible : Note
  preferred_role : String → Note
  anti_affinity : String → Note

-- The running score and the reasons so far.
abbrev pub Tally : Type 0
Tally = ℤ × List Note

-- `if test { score += points; reasons = append(reasons, note) }`
award : Bool → ℤ → Note → Tally → Tally
award test points note (score, reasons) =
    if test then (add64 score points, reasons ++ note ∷ []) else (score, reasons)

matched_labels : Node → List (String × String) → ℕ
matched_labels n [] = 0
matched_labels n ((k, v) ∷ m) =
    let rest = matched_labels n m in
    if str_eq (or_blank (lookup k n.labels)) v then suc rest else rest

award_roles : List String → List String → Tally → Tally
award_roles roles [] t = t
award_roles roles (p ∷ ps) t =
    award_roles roles ps (award (contains roles p) (pos 5) (preferred_role p) t)

award_affinity : Node → List (String × String) → Tally → Tally
award_affinity n [] t = t
award_affinity n ((k, v) ∷ m) t =
    award_affinity n m
      (award (str_eq (or_blank (lookup k n.labels)) v) (negsuc 49) (anti_affinity k) t)

clamp_score : ℤ → ℤ
clamp_score score =
    let capped : ℤ = if ltb_ℤ (pos 100) score then pos 100 else score in
    if ltb_ℤ capped (pos 0) then pos 0 else capped

or_eligible : List Note → List Note
or_eligible [] = eligible ∷ []
or_eligible (r ∷ rs) = r ∷ rs

roles_wanted : Store → Node → List String → Tally → Tally
roles_wanted s n [] t = t
roles_wanted s n (p ∷ ps) t = award_roles (or_empty (s.get_node_roles n.id)) (p ∷ ps) t

pub tally : Store → Node → PlacementRequest → Tally
unfolding award matched_labels award_roles award_affinity roles_wanted
tally s n req =
    let t0 : Tally = award (str_eq n.status status_ready) (pos 20) ready (pos 50, []) in
    let t1 : Tally =
      award
        (ltb_ℤ (pos 0) req.cpu_required
          && leb_ℤ (add64 req.cpu_required req.cpu_required) n.cpu_count)
        (pos 10) ample_cpu t0 in
    let t2 : Tally =
      award
        (ltb_ℤ (pos 0) req.memory_bytes
          && leb_ℤ (add64 req.memory_bytes req.memory_bytes) n.memory_bytes)
        (pos 10) ample_memory t1 in
    let matched = matched_labels n req.require_label in
    let t3 : Tally = award (ltb_ℤ (pos 0) (pos matched)) (wrap64 (matched * 5) 0) label_match t2 in
    let t4 : Tally = roles_wanted s n req.preferred_roles t3 in
    let t5 : Tally =
      award (req.gpu_required && leb_ℤ req.gpu_count n.gpu_count) (pos 15) gpu_available t4 in
    award_affinity n req.anti_affinity t5

pub score : Store → Node → PlacementRequest → ℤ × List Note
unfolding clamp_score or_eligible tally
score s n req = let (total, reasons) = tally s n req in (clamp_score total, or_eligible reasons)

clamp_score_bounds : (t : ℤ) → (pos 0 ≤ℤ clamp_score t) × (clamp_score t ≤ℤ pos 100)
unfolding clamp_score
clamp_score_bounds t = ground arith

-- A score lies between 0 and 100, whatever labels and roles match and whatever wraps around, and
-- comes with at least one reason.
pub score_bounds :
    (s : Store) (n : Node) (req : PlacementRequest)
    → (pos 0 ≤ℤ (score s n req).0) × ((score s n req).0 ≤ℤ pos 100) × ((score s n req).1 ≢ [])
unfolding score
score_bounds s n req =
    let b = clamp_score_bounds (tally s n req).0 in (b.0, b.1, given (tally s n req).1)
  where
    given : (rs : List Note) → or_eligible rs ≢ []
    given [] e = cc
    given (r ∷ rs) e = cc

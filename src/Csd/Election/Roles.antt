-- ===== src/Csd/Election/Roles.antt =====
-- What an election of internal/csd/replication/election.go does to the roles of the replicas.
use capper.Prelude.{
  ℕ, ◌+◌, ◌%◌, String, Bool, true, ◌&&◌, List, [], ◌∷◌, some, map, any, find, str_eq, eq_iff, ◌≡◌,
  refl, ◌∙◌, sym, ap, inl, inr, Bool-cases, arith,
}
use capper.Csd.Election.{
  Replica, World, Manager, Calls, with_status, update_status, list_by_volume, demote_others,
  promote_mine, promote, declare_leader, start_election, tick, run, bump_epoch,
}

-- A row without its status.
abbrev pub identity : Replica → String × String × String × String
identity r = (r.id, r.volume_id, r.role, r.node_id)

abbrev pub identities : List Replica → List (String × String × String × String)
identities rows = map identity rows

update_status-identities :
    (c : Calls) (id s : String) (rows : List Replica)
    → identities (update_status c id s rows) ≡ identities rows
unfolding update_status
update_status-identities c id s rows = elim (Bool-cases c.writable) [
  | inl e ↦ ground (arith, e, all rows)
  | inr e ↦ ground (arith, e)
]
  where
    one : (r : Replica) → identity (with_status id s r) ≡ identity r
    one r = elim (Bool-cases (str_eq r.id id)) [ inl e ↦ rw e refl | inr e ↦ rw e refl ]

    all : (rows : List Replica) → identities (map (with_status id s) rows) ≡ identities rows
    all [] = refl
    all (r ∷ rows) = ground (arith, one r, all rows)

-- The node has a replica of the volume.
unfoldable pub own : Manager → List Replica → Bool
own m rows = any (λ r. str_eq r.volume_id m.volume_id && str_eq r.node_id m.node_id) rows

owned_by : Manager → String × String × String × String → Bool
owned_by m (id, volume, role, node) = str_eq volume m.volume_id && str_eq node m.node_id

own-identities :
    (m : Manager) (rows : List Replica) → own m rows ≡ any (owned_by m) (identities rows)
unfolding own owned_by
own-identities m [] = refl
own-identities m (r ∷ rows) = ground (arith, own-identities m rows)

pub find-own :
    (m : Manager) (rows : List Replica)
    → own m rows ≡ true
    → (r : Replica) × (find (λ x. str_eq x.node_id m.node_id) (list_by_volume m.volume_id rows)
        ≡ some r)
      × (r.node_id ≡ m.node_id)
unfolding own list_by_volume
find-own m [] e = absurd (cc)
find-own m (r ∷ rows) e = elim (Bool-cases (str_eq r.volume_id m.volume_id)) [
  | inl v ↦ elim (Bool-cases (str_eq r.node_id m.node_id)) [
    | inl n ↦ (r, rw (v, n) refl, (eq_iff r.node_id m.node_id).0 n)
    | inr n ↦ let (x, f, g) = find-own m rows (ground arith) in (x, rw (v, n) f, g)
  ]
  | inr v ↦ let (x, f, g) = find-own m rows (ground arith) in (x, rw v f, g)
]

demote_others-identities :
    (m : Manager) (c : Calls) (rs rows : List Replica)
    → identities (demote_others m c rs rows) ≡ identities rows
unfolding demote_others
demote_others-identities m c [] rows = refl
demote_others-identities m c (r ∷ rs) rows = ground (
  arith,
  demote_others-identities m c rs rows,
  demote_others-identities m c rs (update_status c r.id "secondary" rows),
  update_status-identities c r.id "secondary" rows,
)

promote-identities :
    (m : Manager) (c : Calls) (w : World)
    → own m w.replicas ≡ true
    → identities (promote m c w).replicas ≡ identities w.replicas
unfolding promote promote_mine bump_epoch
promote-identities m c w o =
    let replicas = list_by_volume m.volume_id w.replicas in
    let (mine, f, g) = find-own m w.replicas o in
    let d = demote_others-identities m c replicas w.replicas in
    let u = update_status-identities c mine.id "active" (demote_others m c replicas w.replicas) in
    ground (arith, f, d, u)

pub tick-identities :
    (m : Manager) (c : Calls) (w : World)
    → own m w.replicas ≡ true
    → identities (tick m c w).replicas ≡ identities w.replicas
unfolding tick start_election declare_leader
tick-identities m c w o =
    let t : ℕ = (w.term + 1) % 18_446_744_073_709_551_616 in
    let p = promote-identities m c (record w { term = t }) o in
    let q = promote-identities m c (record w { term = t; leader_id = m.node_id }) o in
    ground (arith, p, q)

pub own-tick :
    (m : Manager) (c : Calls) (w : World)
    → own m w.replicas ≡ true
    → own m (tick m c w).replicas ≡ true
own-tick m c w o =
    own-identities m (tick m c w).replicas
    ∙ (ap (any (owned_by m)) (tick-identities m c w o) ∙ (sym (own-identities m w.replicas) ∙ o))

-- A node that has a replica of the volume changes no replica's role, volume or node by any ticks, won
-- elections and failing statements included: its own replica does not become a primary.
pub run-identities :
    (m : Manager) (cs : List Calls) (w : World)
    → own m w.replicas ≡ true
    → identities (run m cs w).replicas ≡ identities w.replicas
unfolding run
run-identities m [] w o = refl
run-identities m (c ∷ cs) w o =
    run-identities m cs (tick m c w) (own-tick m c w o) ∙ tick-identities m c w o

-- ===== src/Csd/Election.antt =====
-- The election of internal/csd/replication/election.go, on one node and for one volume, over the rows of
-- internal/csd/store/replicas.go and the epoch of internal/csd/store/volumes.go. The rows stand in the
-- order of the query, primaries first. The transport and `sort.Slice`
-- are parameters; Go compares strings by their bytes.
pub mod Examples
pub mod Roles
use capper.Prelude.{
  ℕ, suc, ◌+◌, ◌%◌, String, Bool, true, false, not, ◌&&◌, ◌||◌, List, [], ◌∷◌, Option, none, some,
  map, any, keep, find, str_eq, if◌then◌else◌,
}
use Prim.Native.String.{compare}
use text.Mathlib.Text.{is_lt}
use capper.Prelude.Int.{ℤ, pos, ltb_ℤ, eq_ℤ}

abbrev pub replica_primary : String
replica_primary = "primary"

abbrev pub status_active : String
status_active = "active"

abbrev pub status_secondary : String
status_secondary = "secondary"

-- The fields of a replica that the election reads or writes.
pub record Replica : Type 0 where
  pub id : String
  pub volume_id : String
  pub role : String
  pub node_id : String
  pub status : String
  pub last_seq : ℤ

-- The replicas and the volume's epoch are shared; the term and the known leader are the node's.
pub record World : Type 0 where
  pub replicas : List Replica
  pub epoch : ℕ
  pub term : ℕ
  pub leader_id : String

-- ElectionManager: its settings, and `sort.Slice`.
pub record Manager : Type 0 where
  pub node_id : String
  pub volume_id : String
  pub peers : List String
  pub has_transport : Bool
  pub sort : (Replica → Replica → Bool) → List Replica → List Replica

-- What an election finds: whether a higher peer says OK in time, the new row's id, and which statements
-- are carried out.
pub record Calls : Type 0 where
  pub answered : Bool
  pub fresh_id : String
  pub readable : Bool
  pub writable : Bool

pub list_by_volume : String → List Replica → List Replica
list_by_volume v rows = keep (λ r. str_eq r.volume_id v) rows

with_status : String → String → Replica → Replica
with_status id status r = if str_eq r.id id then record r { status = status } else r

pub update_status : Calls → String → String → List Replica → List Replica
unfolding with_status
update_status c id status rows = if c.writable then map (with_status id status) rows else rows

-- The key of the table is the id.
pub insert : Calls → Replica → List Replica → List Replica
insert c r rows = if not c.writable || any (λ x. str_eq x.id r.id) rows then rows else r ∷ rows

pub bump_epoch : Calls → World → World
bump_epoch c w = if c.writable then record w { epoch = suc w.epoch } else w

module _ (m : Manager) where
  pub demote_others : Calls → List Replica → List Replica → List Replica
  demote_others c [] rows = rows
  demote_others c (r ∷ rs) rows =
      let here = str_eq r.role replica_primary && not (str_eq r.node_id m.node_id) in
      demote_others c rs (if here then update_status c r.id status_secondary rows else rows)

  pub less : Replica → Replica → Bool
  less a b =
      if not (eq_ℤ a.last_seq b.last_seq)
      then ltb_ℤ b.last_seq a.last_seq
      else str_eq a.node_id m.node_id

  first_is_other : List Replica → Bool
  first_is_other [] = false
  first_is_other (r ∷ rs) = not (str_eq r.node_id m.node_id)

  -- The tiebreak, without peers only.
  pub outrun : List Replica → Bool
  unfolding first_is_other less
  outrun replicas = elim m.peers [
    | [] ↦ first_is_other (
        m.sort less
          (keep (λ r. str_eq r.status status_active || str_eq r.node_id m.node_id) replicas))
    | p ∷ ps ↦ false
  ]

  pub promote_mine : Calls → List Replica → World → Option Replica → World
  unfolding outrun
  promote_mine c replicas w none = record w {
    replicas =
        insert c
          (record {
            id = c.fresh_id;
            volume_id = m.volume_id;
            role = replica_primary;
            node_id = m.node_id;
            status = status_active;
            last_seq = pos 0;
          })
          w.replicas;
  }
  promote_mine c replicas w (some mine) =
      if outrun replicas
      then w
      else let b = bump_epoch c w in
        record b { replicas = update_status c mine.id status_active b.replicas }

  pub promote : Calls → World → World
  unfolding promote_mine
  promote c w =
      let replicas = list_by_volume m.volume_id w.replicas in
      if not c.readable
      then w
      else promote_mine c replicas (record w { replicas = demote_others c replicas w.replicas })
          (find (λ r. str_eq r.node_id m.node_id) replicas)

  pub declare_leader : Calls → World → World
  declare_leader c w = promote c (record w { leader_id = m.node_id })

  pub peers_with_higher_id : List String
  peers_with_higher_id = keep (λ p. is_lt (compare m.node_id p)) m.peers

  no_peers : List String → Bool
  no_peers [] = true
  no_peers (p ∷ ps) = false

  pub start_election : Calls → World → World
  unfolding declare_leader peers_with_higher_id no_peers
  start_election c w0 =
      let w : World = record w0 { term = (w0.term + 1) % 18_446_744_073_709_551_616 } in
      if not m.has_transport || no_peers m.peers
      then promote c w
      else if no_peers peers_with_higher_id
      then declare_leader c w
      else if c.answered
      then w
      else declare_leader c w

  healthy : Option Replica → Bool
  healthy none = false
  healthy (some r) = not (str_eq r.node_id m.node_id) && str_eq r.status status_active

  pub tick : Calls → World → World
  unfolding healthy
  tick c w =
      if not c.readable
      then w
      else if healthy
          (find (λ r. str_eq r.role replica_primary) (list_by_volume m.volume_id w.replicas))
      then w
      else start_election c w

  pub run : List Calls → World → World
  run [] w = w
  run (c ∷ cs) w = run cs (tick c w)

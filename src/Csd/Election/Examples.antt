-- ===== src/Csd/Election/Examples.antt =====
-- The theorems on internal/csd/replication/election.go for a volume whose primary is gone.
use capper.Prelude.{String, true, false, [], ◌∷◌, ◌≡◌, refl}
use capper.Prelude.Int.{pos}
use capper.Csd.Election.{Replica, World, Manager, Calls, run}
use capper.Csd.Election.Roles.{own, identities, run-identities}

abbrev manager : Manager
manager = record {
  node_id = "b";
  volume_id = "v";
  peers = "a" ∷ [];
  has_transport = true;
  sort = λ less rows. rows;
}

abbrev replica : String → String → String → String → Replica
replica id role node status = record {
  id = id;
  volume_id = "v";
  role = role;
  node_id = node;
  status = status;
  last_seq = pos 0;
}

abbrev world : World
world = record {
  replicas = replica "1" "primary" "a" "lost" ∷ replica "2" "secondary" "b" "active" ∷ [];
  epoch = 7;
  term = 0;
  leader_id = "";
}

abbrev calls : Calls
calls = record { answered = false; fresh_id = "3"; readable = true; writable = true }

owned : own manager world.replicas ≡ true
unfolding own
owned = refl

run-identities_example :
    identities (run manager (calls ∷ calls ∷ []) world).replicas ≡ identities world.replicas
run-identities_example = run-identities manager (calls ∷ calls ∷ []) world owned

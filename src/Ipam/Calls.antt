-- ===== src/Ipam/Calls.antt =====
-- Sequences of calls of the manager of internal/ipam/manager.go, each with the statements that fail during it.
use capper.Prelude.{String, List, [], ◌∷◌}
use capper.Ipam.{Db, IpExclusion, IpBinding}
use capper.Ipam.Tables.{Faults}
use capper.Ipam.Create
use capper.Ipam.Create.{CreatePoolOptions}
use capper.Ipam.Manager
use capper.Ipam.Manager.{ReserveOptions}
use capper.Ipam.Expand.{Netip}

pub data Call : Type 0 where
  reserve : ReserveOptions → Call
  release : String → Call
  attach : String → IpBinding → Call
  detach : String → Call
  add_exclusion : IpExclusion → Call
  remove_exclusion : String → Call
  create_pool : (String → String) → CreatePoolOptions → Call
  delete_pool : String → Call

abbrev pub apply : Netip → Faults → Call → Db → Db
apply n f (Call.reserve o) db = (Manager.reserve f o db).1
apply n f (Call.release id) db = (Manager.release f id db).1
apply n f (Call.attach id b) db = (Manager.attach f id b db).1
apply n f (Call.detach id) db = (Manager.detach f id db).1
apply n f (Call.add_exclusion e) db = (Manager.add_exclusion f n e db).1
apply n f (Call.remove_exclusion id) db = (Manager.remove_exclusion f id db).1
apply n f (Call.create_pool new_id opts) db = (Create.create_pool f n new_id opts db).1
apply n f (Call.delete_pool id) db = (Create.delete_pool f id db).1

abbrev pub run : Netip → List (Faults × Call) → Db → Db
run n [] db = db
run n ((f, c) ∷ rest) db = run n rest (apply n f c db)

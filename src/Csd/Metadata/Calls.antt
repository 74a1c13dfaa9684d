-- ===== src/Csd/Metadata/Calls.antt =====
-- Any call of internal/csd/server/metadata_manager.go that changes the tables.
use capper.Prelude.{String}
use capper.Csd.Metadata.{Store}
use capper.Csd.Metadata.Manager
use capper.Csd.Metadata.Manager.{
  World, CreateReq, UnlinkReq, RenameReq, TruncateReq, node_of, create_payload, operation_of,
  append, commit, mknode, inode_file, inode_dir,
}

pub data Call : Type 0 where
  create mkdir : CreateReq → Call
  unlink : UnlinkReq → Call
  rename : RenameReq → Call
  truncate : TruncateReq → Call

abbrev pub volume_of : Call → String
volume_of (create req) = req.volume_id
volume_of (mkdir req) = req.volume_id
volume_of (unlink req) = req.volume_id
volume_of (rename req) = req.volume_id
volume_of (truncate req) = req.volume_id

-- The tables after a call, whatever it answers.
abbrev pub perform : World → Call → Store → Store
perform w (create req) d = (Manager.create w req d).1
perform w (mkdir req) d = (Manager.mkdir w req d).1
perform w (unlink req) d = (Manager.unlink w req d).1
perform w (rename req) d = (Manager.rename w req d).1
perform w (truncate req) d = (Manager.truncate w req d).1

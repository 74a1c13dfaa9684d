-- ===== src/Csd/Metadata/Examples.antt =====
-- The calls and messages of the shared disk's directories at concrete tables.
use capper.Prelude.{
  String, Bool, true, false, [], ◌∷◌, none, some, ◌≡◌, refl, ◌⊎◌, keep, if◌then◌else◌,
}
use capper.Prelude.Int.{sub64}
use capper.Prelude.Action.{err}
use capper.Csd.Metadata
use capper.Csd.Metadata.{
  Inode, Entry, Store, Statement, commit_entry, already_exists, is_pending, max_seq, stands_at,
  lookup_inode,
}
use capper.Csd.Metadata.Manager
use capper.Csd.Metadata.Manager.{World, CreateReq, RenameReq, UnlinkReq, node_of, inode_file}
use capper.Csd.Metadata.Replay
use capper.Csd.Metadata.Replay.{checkpoint}
use capper.Csd.Metadata.Pending.{calm, restarted, waiting}
use capper.Csd.Metadata.Calls.{Call, perform}
use capper.Csd.Metadata.Calls
use capper.Csd.Metadata.Atomic.{restart_atomic}
use capper.Csd.Metadata.Atomic.Rows.{Alike}
use capper.Csd.Metadata.Directory.{Command, view, run, run_promised}
use capper.Csd.Metadata.Directory.Rows.{Unique}
use capper.Csd.Metadata.Directory.Refine.{run-promised}
use capper.Csd.Metadata.Ghost.{create_resurrects, unlink_it, id_of}
use capper.Csd.Metadata.Served.{Message, refusal, code_not_found, code_internal, dispatch, serve}
use capper.Csd.Metadata.Served.Blind.{lookup_blind}
use capper.Csd.Metadata.Checkpoint.{checkpoint_keeps}

abbrev at_commit : Statement → Bool
at_commit commit_entry = true
at_commit s = false

abbrev world : String → World
world id = record { fails = λ s. false; now = "2026"; new_inode = id; new_entry = "e" }

abbrev cut_off : World
cut_off = record (world "i1") { fails = at_commit }

abbrev req_a : CreateReq
req_a = record {
  volume_id = "v";
  parent_id = "root-v";
  name = "a";
  mode_bits = 420;
  uid = 7;
  gid = 7;
  client_id = "c";
}

abbrev root : Inode
root = Manager.root_of (world "") "v"

abbrev file_a : Inode
file_a = node_of (world "i0") req_a inode_file

abbrev empty_disk : Store
empty_disk = record { inodes = root ∷ []; journal = [] }

abbrev disk_a : Store
disk_a = record { inodes = file_a ∷ root ∷ []; journal = [] }

abbrev move_a : RenameReq
move_a = record {
  volume_id = "v";
  inode_id = "i0";
  old_parent_id = "root-v";
  old_name = "a";
  new_parent_id = "root-v";
  new_name = "b";
  client_id = "c";
}

-- A name is free again after a create, a rename of another file and a remove.
names_after :
    view "v"
      (run "v"
        ((world "i1", Command.create (record req_a { name = "c" }))
          ∷ (world "", Command.rename "root-v" "a" "root-v" "b")
          ∷ (world "", Command.remove "root-v" "c")
          ∷ [])
        disk_a)
      "root-v"
      "c"
    ≡ none
unfolding Manager.create Manager.mknode Manager.append Manager.commit Manager.rename Manager.unlink
    Metadata.get Metadata.insert_row Metadata.move_row Metadata.move_blocked Metadata.delete_row
    Metadata.update_row sub64
names_after = refl

-- A replayed Create has lost its owner.
owner_lost :
    (restarted
      (λ z. z)
      (λ k. world "")
      "v"
      (perform
        (record (world "i1") { fails = λ s. elim s [ Metadata.insert_inode ↦ true | _ ↦ false ] })
        (Calls.create req_a)
        empty_disk)).inodes
    ≡ record (node_of (world "i1") req_a inode_file) { uid = 0; gid = 0 } ∷ root ∷ []
unfolding Manager.create Manager.mknode Manager.append Manager.commit Metadata.insert_row
    Replay.replay Replay.replay_all Replay.apply Metadata.pending Metadata.by_seq Metadata.place
    Metadata.max_seq
owner_lost = refl

restart_atomic_example :
    (Alike
        (restarted
          (λ z. z)
          (λ k. world "")
          "v"
          (perform cut_off (Calls.rename move_a) disk_a)).inodes
        disk_a.inodes
      ⊎ Alike
          (restarted
            (λ z. z)
            (λ k. world "")
            "v"
            (perform cut_off (Calls.rename move_a) disk_a)).inodes
          (perform (calm cut_off) (Calls.rename move_a) disk_a).inodes)
    × (waiting "v"
          (restarted (λ z. z) (λ k. world "") "v" (perform cut_off (Calls.rename move_a) disk_a))
        ≡ [])
restart_atomic_example =
    restart_atomic (λ z. z) (λ k. world "") cut_off (Calls.rename move_a) disk_a (λ z h k. refl) tt
      refl

run-promised_example :
    (view "v" (
        run "v"
          ((world "i1", Command.create (record req_a { name = "c" }))
            ∷ (world "", Command.rename "root-v" "a" "root-v" "b")
            ∷ [])
          disk_a)
      ≡ run_promised
          ((world "i1", Command.create (record req_a { name = "c" }))
            ∷ (world "", Command.rename "root-v" "a" "root-v" "b")
            ∷ [])
          (view "v" disk_a))
    × Unique
        (run "v"
          ((world "i1", Command.create (record req_a { name = "c" }))
            ∷ (world "", Command.rename "root-v" "a" "root-v" "b")
            ∷ [])
          disk_a).inodes
run-promised_example =
    run-promised "v"
      ((world "i1", Command.create (record req_a { name = "c" }))
        ∷ (world "", Command.rename "root-v" "a" "root-v" "b")
        ∷ [])
      disk_a (((refl, refl), tt), (tt, tt)) ((refl, refl), (tt, tt))

create_resurrects_example :
    ((Manager.create (calm (world "i1")) req_a disk_a).0 ≡ err already_exists)
    × (id_of (
          view "v"
            (restarted
              (λ z. z)
              (λ k. world "")
              "v"
              (Manager.unlink
                (calm (world ""))
                (unlink_it (world "i1") req_a disk_a (world "") file_a)
                (Manager.create (calm (world "i1")) req_a disk_a).1).1)
            "root-v"
            "a")
        ≡ some "i1")
create_resurrects_example =
    create_resurrects (λ z. z) (λ k. world "") (world "i1") (world "") req_a disk_a file_a
      (((refl, refl), tt), (tt, tt)) refl refl refl refl

lookup_blind_example :
    (dispatch
      (λ s. false)
      (world "")
      (Message.lookup "root-v" "a")
      (serve (((λ s. false), world "i1", Message.create "root-v" "a" 420) ∷ []) empty_disk)).0
    ≡ refusal (if false then code_internal else code_not_found)
lookup_blind_example =
    lookup_blind (((λ s. false), world "i1", Message.create "root-v" "a" 420) ∷ []) empty_disk
      (refl, tt) (λ s. false) (world "") "root-v" "a"

abbrev long_journal : Store
long_journal = record {
  inodes = [];
  journal =
      record (Manager.entry_of (world "") "v" "c" "rename" "i0" [] 1002) { committed = true }
      ∷ record (Manager.entry_of (world "") "v" "c" "rename" "i0" [] 2) { committed = true }
      ∷ Manager.entry_of (world "") "v" "c" "rename" "i0" [] 1
      ∷ [];
}

checkpoint_keeps_example :
    ((other : String)
      → keep (is_pending other) (checkpoint (λ s. false) "v" long_journal).1.journal
        ≡ keep (is_pending other) long_journal.journal)
    × (max_seq "v" (checkpoint (λ s. false) "v" long_journal).1.journal
        ≡ max_seq "v" long_journal.journal)
    × ((checkpoint (λ s. false) "v" long_journal).1.inodes ≡ [])
checkpoint_keeps_example = checkpoint_keeps (λ s. false) "v" long_journal

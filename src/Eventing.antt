-- ===== src/Eventing.antt =====
-- Message queues: internal/eventing/queues.go, over the tables of queues and of messages. The clock counts
-- nanoseconds since the year 1; the stored times are whole seconds, as their texts are, which sort like them. A new message's id comes from the clock, and is
-- given with the call.
pub mod Hidden
pub mod Examples
use capper.Prelude.{
  ℕ, suc, ◌+◌, ◌-◌, ◌*◌, ◌/◌, ◌≤◌, String, Bool, true, false, not, ◌&&◌, ◌||◌, List, [], ◌∷◌, ◌++◌,
  Option, none, some, map, any, keep, find, take, str_eq, leb, ltb, if◌then◌else◌,
}
use capper.Prelude.Int.{ℤ, pos, pos_part, neg_part, leb_ℤ, wrap64}
use capper.Prelude.Action.{Result, ok, err}
use capper.Prelude.Sort.{insertion_sort}

pub record Queue : Type 0 where
  pub id : String
  pub name : String
  pub visibility_timeout_seconds : ℕ
  pub dlq_name : String

pub record QueueMessage : Type 0 where
  pub id : String
  pub queue_id : String
  pub body : String
  pub visible_at : ℕ
  pub receive_count : ℕ
  pub created_at : ℕ

pub record Db : Type 0 where
  pub queues : List Queue
  pub messages : List QueueMessage

pub data Statement : Type 0 where
  get_queue_row insert_message hide_message delete_message_row : String → Statement
  select_messages insert_queue : Statement
  delete_queue_messages delete_queue_row : String → Statement

pub data Error : Type 0 where
  queue_not_found sql_failed : Error

abbrev pub Faults : Type 0
Faults = Statement → Bool

-- What a call finds: failing statements, the clock, and the ids that it gives to new messages.
pub record World : Type 0 where
  pub fails : Faults
  pub now : ℕ
  pub new_id : String → String

-- Format(time.RFC3339) drops the fraction of a second.
abbrev pub stamp : ℕ → ℕ
stamp now = now / 1_000_000_000

-- `now.Add(time.Duration(n) * time.Second)`, whose product wraps to an int64.
unfoldable pub add_seconds : ℕ → ℕ → ℕ
unfolding wrap64
add_seconds now n = let d = wrap64 (n * 1_000_000_000) 0 in now + pos_part d - neg_part d

abbrev pub max_receives : ℕ
max_receives = 5

-- By id or by name; any failure counts as a queue that is missing.
pub get_queue : Faults → String → Db → Option Queue
get_queue f name db =
    if f (get_queue_row name)
    then none
    else find (λ q. str_eq q.id name || str_eq q.name name) db.queues

-- A timeout that is not positive becomes 30 seconds. The retention time is kept by no other call.
pub create_queue : Faults → String → String → ℤ → String → Db → Result Error Queue × Db
create_queue f id name timeout dlq db =
    let q : Queue = record {
      id = id;
      name = name;
      visibility_timeout_seconds = if leb_ℤ timeout (pos 0) then 30 else pos_part timeout;
      dlq_name = dlq;
    } in
    if f insert_queue || any (λ x. str_eq x.id id || str_eq x.name name) db.queues
    then (err sql_failed, db)
    else (ok q, record db { queues = db.queues ++ q ∷ [] })

-- The messages go first, and a failure to delete them is passed over.
pub delete_queue : Faults → String → Db → Result Error (Unit {0}) × Db
unfolding get_queue
delete_queue f name db = elim (get_queue f name db) [
  | none ↦ (err queue_not_found, db)
  | some q ↦
      let left =
        if f (delete_queue_messages q.id)
        then db
        else record db { messages = keep (λ m. not (str_eq m.queue_id q.id)) db.messages } in
      if f (delete_queue_row q.id)
      then (err sql_failed, left)
      else (ok tt, record left { queues = keep (λ x. not (str_eq x.id q.id)) left.queues })
]

pub insert : Faults → QueueMessage → Db → Result Error QueueMessage × Db
insert f m db =
    if f (insert_message m.id) || any (λ x. str_eq x.id m.id) db.messages
    then (err sql_failed, db)
    else (ok m, record db { messages = db.messages ++ m ∷ [] })

pub send_message : Faults → ℕ → String → String → String → Db → Result Error QueueMessage × Db
unfolding get_queue insert
send_message f now id name body db = elim (get_queue f name db) [
  | none ↦ (err queue_not_found, db)
  | some q ↦
      insert f
        (record {
          id = id;
          queue_id = q.id;
          body = body;
          visible_at = stamp now;
          receive_count = 0;
          created_at = stamp now;
        })
        db
]

pub delete_message : Faults → String → Db → Result Error (Unit {0}) × Db
delete_message f id db =
    if f (delete_message_row id)
    then (err sql_failed, db)
    else (ok tt, record db { messages = keep (λ m. not (str_eq m.id id)) db.messages })

pub visible : Queue → ℕ → QueueMessage → Bool
visible q now m = str_eq m.queue_id q.id && leb m.visible_at (stamp now)

pub older : QueueMessage → QueueMessage → Bool
older a b = ltb a.created_at b.created_at

-- Each received message is hidden and counted; a failing update is passed over.
pub hidden : ℕ → String → QueueMessage → QueueMessage
hidden next id m =
    if str_eq m.id id
    then record m { visible_at = next; receive_count = suc m.receive_count }
    else m

pub hide_all : Faults → ℕ → List QueueMessage → Db → Db
unfolding hidden
hide_all f next [] db = db
hide_all f next (m ∷ ms) db = hide_all f next ms (
    if f (hide_message m.id)
    then db
    else record db { messages = map (hidden next m.id) db.messages })

module _ (trim : String → String) (w : World) where
  -- The source message is deleted only once its copy is in the dead letter queue.
  pub forwarded : String → Result Error QueueMessage × Db → Db
  unfolding delete_message
  forwarded id (err _, db) = db
  forwarded id (ok _, db) = (delete_message w.fails id db).1

  pub move_all : Queue → List QueueMessage → Db → Db
  unfolding forwarded send_message
  move_all dlq [] db = db
  move_all dlq (m ∷ ms) db = move_all dlq ms (
      if leb max_receives m.receive_count
      then forwarded m.id (send_message w.fails w.now (w.new_id m.id) dlq.name (trim m.body) db)
      else db)

  pub move_to_dlq : Queue → List QueueMessage → Db → Db
  unfolding move_all get_queue
  move_to_dlq q ms db =
      if str_eq q.dlq_name ""
      then db
      else elim (get_queue w.fails q.dlq_name db) [ none ↦ db | some dlq ↦ move_all dlq ms db ]

  pub selected : Queue → ℤ → Db → List QueueMessage
  unfolding visible older
  selected q max db =
      take (if leb_ℤ max (pos 0) then 1 else pos_part max)
        (insertion_sort older (keep (visible q w.now) db.messages))

  pub receive_messages : String → ℤ → Db → Result Error (List QueueMessage) × Db
  unfolding get_queue selected hide_all move_to_dlq
  receive_messages name max db = elim (get_queue w.fails name db) [
    | none ↦ (err queue_not_found, db)
    | some q ↦
        if w.fails select_messages
        then (err sql_failed, db)
        else let out = selected q max db in
          (
            ok out,
            move_to_dlq q out
                (hide_all w.fails (stamp (add_seconds w.now q.visibility_timeout_seconds)) out db),
          )
  ]

-- ===== src/Eventing/Examples.antt =====
-- The theorem on internal/eventing/queues.go for a queue of one message.
use capper.Prelude.{ℕ, ◌+◌, ◌*◌, String, false, [], ◌∷◌, ◌≡◌, refl, any, str_eq, arith}
use capper.Prelude.Int.{pos, wrap64}
use capper.Prelude.Sort.{insertion_sort, sink, sink_all, rev_onto}
use capper.Eventing.{
  Queue, QueueMessage, Db, World, add_seconds, get_queue, insert, send_message, visible, older,
  hidden, hide_all, move_all, move_to_dlq, selected, receive_messages,
}
use capper.Eventing.Hidden.Once.{Call, receive_hides}

abbrev jobs : Queue
jobs = record { id = "q"; name = "jobs"; visibility_timeout_seconds = 30; dlq_name = "" }

abbrev message : String → ℕ → ℕ → QueueMessage
message id at received = record {
  id = id;
  queue_id = "q";
  body = "";
  visible_at = at;
  receive_count = received;
  created_at = at;
}

abbrev tables : Db
tables = record { queues = jobs ∷ []; messages = message "m1" 5 0 ∷ [] }

abbrev at : ℕ → World
at now = record { fails = λ s. false; now = now * 1_000_000_000 + 900_000_000; new_id = λ i. "m2" }

receive_hides_example : any (λ m. str_eq m.id "m1") (message "m2" 21 0 ∷ []) ≡ false
unfolding add_seconds wrap64 get_queue receive_messages selected visible older hide_all hidden
    move_to_dlq move_all send_message insert insertion_sort sink sink_all rev_onto
receive_hides_example =
    receive_hides (λ s. s) (at 10) (at 38) "jobs" "q" "m1" (pos 0) (pos 10) tables jobs
      (message "m1" 5 0 ∷ []) (message "m2" 21 0 ∷ []) ((at 21, Call.send "jobs" "") ∷ []) refl
      (omega arith) refl refl refl (λ i. refl) ((omega arith, λ i. refl), tt) (omega arith) refl

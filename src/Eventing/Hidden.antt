-- ===== src/Eventing/Hidden.antt =====
-- A message that was received stays hidden for the queue's timeout: internal/eventing/queues.go.
pub mod Once
use capper.Prelude.{
  subst, sym, ℕ, zero, suc, ◌+◌, ◌≤◌, ◌<◌, ◌≡◌, ◌∙◌, refl, ap, String, Bool, true, false, not, ◌&&◌,
  ◌||◌, List, [], ◌∷◌, ◌++◌, Option, none, some, map, any, keep, take, str_eq, eq_iff, leb, ltb,
  if◌then◌else◌, arith, Bool-cases, inl, inr, All, All-append, keep-All, keep-passes, map-All,
  Option-cases,
}
use capper.Prelude.Int.{ℤ}
use capper.Prelude.Action.{Result, ok, err}
use capper.Prelude.Sort.{insertion_sort-All}
use capper.Eventing
use capper.Eventing.{
  Queue, QueueMessage, Db, Faults, World, hide_message, create_queue, delete_queue, get_queue,
  insert, send_message, delete_message, visible, older, hidden, hide_all, forwarded, move_all,
  move_to_dlq, selected, receive_messages,
}

module _ (id : String) (until : ℕ) where
  -- A row of the message that can be seen before the time.
  pub seen : QueueMessage → Bool
  seen m = str_eq m.id id && ltb m.visible_at until

  pub Unseen : QueueMessage → Type 0
  unfolding seen
  Unseen m = seen m ≡ false

  abbrev pub Hidden : Db → Type 0
  Hidden db = All Unseen db.messages

  other-Unseen : (m : QueueMessage) → str_eq m.id id ≡ false → Unseen m
  unfolding Unseen
  other-Unseen m h = rw h refl

  insert-Hidden :
      (f : Faults) (m : QueueMessage) (db : Db)
      → str_eq m.id id ≡ false
      → Hidden db
      → Hidden (insert f m db).1
  unfolding insert
  insert-Hidden f m db h a =
      elim (Bool-cases
        (f (Eventing.insert_message m.id) || any (λ x. str_eq x.id m.id) db.messages)) [
          | inl e ↦ rw e a
          | inr e ↦ rw e (All-append Unseen db.messages (m ∷ []) a (other-Unseen m h, tt))
        ]

  pub send-Hidden :
      (f : Faults) (now : ℕ) (new name body : String) (db : Db)
      → str_eq new id ≡ false
      → Hidden db
      → Hidden (send_message f now new name body db).1
  unfolding send_message
  send-Hidden f now new name body db h a = elim (Option-cases (get_queue f name db)) [
    | inl e ↦ rw (send_message, e) a
    | inr (q, e) ↦ rw (send_message, e) (insert-Hidden f _ db h a)
  ]

  pub delete-Hidden :
      (f : Faults) (i : String) (db : Db) → Hidden db → Hidden (delete_message f i db).1
  unfolding delete_message
  delete-Hidden f i db a = elim (Bool-cases (f (Eventing.delete_message_row i))) [
    | inl e ↦ rw e a
    | inr e ↦ rw e (keep-All (λ m. not (str_eq m.id i)) Unseen db.messages a)
  ]

  pub create_queue-Hidden :
      (f : Faults) (i name dlq : String) (timeout : ℤ) (db : Db)
      → Hidden db
      → Hidden (create_queue f i name timeout dlq db).1
  unfolding create_queue
  create_queue-Hidden f i name dlq timeout db a =
      elim (Bool-cases
        (f Eventing.insert_queue || any (λ x. str_eq x.id i || str_eq x.name name) db.queues)) [
          | inl e ↦ rw e a
          | inr e ↦ rw e a
        ]

  pub delete_queue-Hidden :
      (f : Faults) (name : String) (db : Db) → Hidden db → Hidden (delete_queue f name db).1
  unfolding delete_queue
  delete_queue-Hidden f name db a = elim (Option-cases (get_queue f name db)) [
    | inl e ↦ rw (delete_queue, e) a
    | inr (q, e) ↦
        let fewer = keep-All (λ m. not (str_eq m.queue_id q.id)) Unseen db.messages a in
        elim (Bool-cases (f (Eventing.delete_queue_messages q.id))) [
          | inl g ↦ elim (Bool-cases (f (Eventing.delete_queue_row q.id))) [
            | inl h ↦ rw (delete_queue, e, g, h) a
            | inr h ↦ rw (delete_queue, e, g, h) a
          ]
          | inr g ↦ elim (Bool-cases (f (Eventing.delete_queue_row q.id))) [
            | inl h ↦ rw (delete_queue, e, g, h) fewer
            | inr h ↦ rw (delete_queue, e, g, h) fewer
          ]
        ]
  ]

  -- An update of another message, or to a time that is not before.
  hidden-Unseen :
      (next : ℕ) (i : String) (m : QueueMessage)
      → str_eq i id && ltb next until ≡ false
      → Unseen m
      → Unseen (hidden next i m)
  unfolding Unseen hidden
  hidden-Unseen next i m h u = elim (Bool-cases (str_eq m.id i)) [
    | inl e ↦ rw e (ap (λ x. str_eq x id && ltb next until) ((eq_iff m.id i).0 e) ∙ h)
    | inr e ↦ rw e u
  ]

  hidden-own : (next : ℕ) (m : QueueMessage) → until ≤ next → Unseen (hidden next id m)
  unfolding Unseen hidden
  hidden-own next m h = elim (Bool-cases (str_eq m.id id)) [
    | inl e ↦ let late : ltb next until ≡ false = ground (arith, h) in rw (e, late, e) refl
    | inr e ↦ rw (e, e) refl
  ]

  pub hide_all-Hidden :
      (f : Faults) (next : ℕ) (ms : List QueueMessage) (db : Db)
      → All (λ m. str_eq m.id id && ltb next until ≡ false) ms
      → Hidden db
      → Hidden (hide_all f next ms db)
  unfolding hide_all
  hide_all-Hidden f next [] db c a = a
  hide_all-Hidden f next (m ∷ ms) db c a = elim (Bool-cases (f (hide_message m.id))) [
    | inl e ↦ rw (hide_all, e) (hide_all-Hidden f next ms db c.1 a)
    | inr e ↦
        rw (hide_all, e)
          (hide_all-Hidden f next ms _ c.1
            (map-All Unseen (hidden next m.id) (λ x. hidden-Unseen next m.id x c.0) db.messages a))
  ]

  -- The update of the message itself hides its rows.
  pub hide_all-own :
      (f : Faults) (ms : List QueueMessage) (db : Db)
      → any (λ m. str_eq m.id id) ms ≡ true
      → f (hide_message id) ≡ false
      → Hidden (hide_all f until ms db)
  unfolding hide_all
  hide_all-own f [] db h up = absurd (ground (arith, h))
  hide_all-own f (m ∷ ms) db h up = elim (Bool-cases (str_eq m.id id)) [
    | inl e ↦
        let same = (eq_iff m.id id).0 e in
        subst
          (λ i. Hidden (
            hide_all f until ms (
              if f (hide_message i)
              then db
              else record db { messages = map (hidden until i) db.messages })))
          (sym same) (rw up (hide_all-Hidden f until ms _ (late ms) (all_own db.messages)))
    | inr e ↦ hide_all-own f ms _ (ground (arith, h, e)) up
  ]
    where
      late : (ms : List QueueMessage) → All (λ m. str_eq m.id id && ltb until until ≡ false) ms
      late [] = tt
      late (m ∷ ms) = (ground arith, late ms)

      all_own : (ms : List QueueMessage) → All Unseen (map (hidden until id) ms)
      all_own [] = tt
      all_own (m ∷ ms) = (hidden-own until m (omega arith), all_own ms)

  module _ (trim : String → String) (w : World)
      (fresh : (i : String) → str_eq (w.new_id i) id ≡ false) where
    forwarded-Hidden :
        (i : String) (r : Result Eventing.Error QueueMessage × Db)
        → Hidden r.1
        → Hidden (forwarded trim w i r)
    unfolding forwarded
    forwarded-Hidden i (err e, db) a = a
    forwarded-Hidden i (ok m, db) a = delete-Hidden w.fails i db a

    move_all-Hidden :
        (dlq : Queue) (ms : List QueueMessage) (db : Db)
        → Hidden db
        → Hidden (move_all trim w dlq ms db)
    unfolding move_all
    move_all-Hidden dlq [] db a = a
    move_all-Hidden dlq (m ∷ ms) db a =
        elim (Bool-cases (leb Eventing.max_receives m.receive_count)) [
          | inl e ↦
              rw (move_all, e)
                (move_all-Hidden dlq ms _ (
                  forwarded-Hidden m.id _ (
                    send-Hidden w.fails w.now (w.new_id m.id) dlq.name (trim m.body) db (fresh m.id)
                      a)))
          | inr e ↦ rw (move_all, e) (move_all-Hidden dlq ms db a)
        ]

    pub move_to_dlq-Hidden :
        (q : Queue) (ms : List QueueMessage) (db : Db)
        → Hidden db
        → Hidden (move_to_dlq trim w q ms db)
    unfolding move_to_dlq
    move_to_dlq-Hidden q ms db a = elim (Bool-cases (str_eq q.dlq_name "")) [
      | inl e ↦ rw e a
      | inr e ↦ elim (Option-cases (get_queue w.fails q.dlq_name db)) [
        | inl g ↦ rw (e, g) a
        | inr (dlq, g) ↦ rw (e, g) (move_all-Hidden dlq ms db a)
      ]
    ]

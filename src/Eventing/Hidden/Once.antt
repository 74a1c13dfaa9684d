-- ===== src/Eventing/Hidden/Once.antt =====
-- A received message is not received again before its timeout: sequences of calls of
-- internal/eventing/queues.go.
use capper.Prelude.{
  ℕ, zero, suc, ◌+◌, ◌*◌, ◌≤◌, ◌<◌, ◌≡◌, ◌∙◌, refl, ap, sym, subst, String, true, false, ◌&&◌, List,
  [], ◌∷◌, some, any, keep, take, str_eq, ltb, arith, Bool-cases, inl, inr, Option-cases, All,
  All-map,
}
use capper.Prelude.Int.{ℤ, wrap64}
use capper.Prelude.Action.{ok}
use capper.Prelude.Sort.{insertion_sort-All}
use capper.Eventing
use capper.Eventing.{
  Queue, QueueMessage, Db, Faults, World, hide_message, create_queue, delete_queue, get_queue,
  send_message, delete_message, stamp, add_seconds, visible, older, hide_all, move_to_dlq, selected,
  receive_messages,
}
use capper.Eventing.Hidden.{
  seen, Unseen, Hidden, send-Hidden, delete-Hidden, create_queue-Hidden, delete_queue-Hidden,
  hide_all-Hidden, hide_all-own, move_to_dlq-Hidden,
}

pub data Call : Type 0 where
  send : String → String → Call
  receive : String → ℤ → Call
  delete : String → Call
  create : String → ℤ → String → Call
  drop_queue : String → Call

module _ (trim : String → String) where
  abbrev pub apply : World × Call → Db → Db
  apply (w, Call.send name body) db = (send_message w.fails w.now (w.new_id name) name body db).1
  apply (w, Call.receive name max) db = (receive_messages trim w name max db).1
  apply (w, Call.delete id) db = (delete_message w.fails id db).1
  apply (w, Call.create name timeout dlq) db =
      (create_queue w.fails (w.new_id name) name timeout dlq db).1
  apply (w, Call.drop_queue name) db = (delete_queue w.fails name db).1

  abbrev pub run : List (World × Call) → Db → Db
  run [] db = db
  run (c ∷ calls) db = run calls (apply c db)

  module _ (id : String) (until : ℕ) where
    -- A call before the time, whose clock gives no message the id of this one.
    abbrev pub Spares : World × Call → Type 0
    Spares (w, c) = (stamp w.now < until) × ((i : String) → str_eq (w.new_id i) id ≡ false)

    visible-other :
        (q : Queue) (now : ℕ) (ms : List QueueMessage)
        → stamp now < until
        → All (Unseen id until) ms
        → All (λ m. str_eq m.id id ≡ false) (keep (visible q now) ms)
    unfolding Unseen seen visible
    visible-other q now [] h a = tt
    visible-other q now (m ∷ ms) h a = elim (Bool-cases (visible q now m)) [
      | inl e ↦
          let other : str_eq m.id id ≡ false = ground (arith, e, h, a.0) in
          rw e (other, visible-other q now ms h a.1)
      | inr e ↦ rw e (visible-other q now ms h a.1)
    ]

    take-All : {A : Type 0} (P : A → Type 0) (n : ℕ) (xs : List A) → All P xs → All P (take n xs)
    take-All P zero xs a = tt
    take-All P (suc n) [] a = tt
    take-All P (suc n) (x ∷ xs) a = (a.0, take-All P n xs a.1)

    selected-other :
        (w : World) (q : Queue) (max : ℤ) (db : Db)
        → stamp w.now < until
        → Hidden id until db
        → All (λ m. str_eq m.id id ≡ false) (selected trim w q max db)
    unfolding selected
    selected-other w q max db h a = take-All _ _ _ (
        insertion_sort-All (λ m. str_eq m.id id ≡ false) older (keep (visible q w.now) db.messages)
          (visible-other q w.now db.messages h a))

    untouched :
        (m : QueueMessage) (next : ℕ)
        → str_eq m.id id ≡ false
        → str_eq m.id id && ltb next until ≡ false
    untouched m next h = rw h refl

    receive-Hidden :
        (w : World) (name : String) (max : ℤ) (db : Db)
        → stamp w.now < until
        → ((i : String) → str_eq (w.new_id i) id ≡ false)
        → Hidden id until db
        → Hidden id until (receive_messages trim w name max db).1
    unfolding receive_messages
    receive-Hidden w name max db h fresh a = elim (Option-cases (get_queue w.fails name db)) [
      | inl e ↦ rw (receive_messages, e) a
      | inr (q, e) ↦ elim (Bool-cases (w.fails Eventing.select_messages)) [
        | inl g ↦ rw (receive_messages, e, g) a
        | inr g ↦
            let out = selected trim w q max db in
            let next = stamp (add_seconds w.now q.visibility_timeout_seconds) in
            rw (receive_messages, e, g)
              (move_to_dlq-Hidden id until trim w fresh q out (hide_all w.fails next out db) (
                hide_all-Hidden id until w.fails next out db
                  (All-map _ _ (λ m. untouched m next) out (selected-other w q max db h a)) a))
      ]
    ]

    apply-Hidden :
        (c : World × Call) (db : Db) → Spares c → Hidden id until db → Hidden id until (apply c db)
    apply-Hidden (w, Call.send name body) db s a =
        send-Hidden id until w.fails w.now (w.new_id name) name body db (s.1 name) a
    apply-Hidden (w, Call.receive name max) db s a = receive-Hidden w name max db s.0 s.1 a
    apply-Hidden (w, Call.delete i) db s a = delete-Hidden id until w.fails i db a
    apply-Hidden (w, Call.create name timeout dlq) db s a =
        create_queue-Hidden id until w.fails (w.new_id name) name dlq timeout db a
    apply-Hidden (w, Call.drop_queue name) db s a = delete_queue-Hidden id until w.fails name db a

    run-Hidden :
        (calls : List (World × Call)) (db : Db)
        → All Spares calls
        → Hidden id until db
        → Hidden id until (run calls db)
    run-Hidden [] db s a = a
    run-Hidden (c ∷ calls) db s a = run-Hidden calls (apply c db) s.1 (apply-Hidden c db s.0 a)

    none_of :
        (ms : List QueueMessage)
        → All (λ m. str_eq m.id id ≡ false) ms
        → any (λ m. str_eq m.id id) ms ≡ false
    none_of [] a = refl
    none_of (m ∷ ms) a = rw (a.0) (none_of ms a.1)

    -- A call that returns messages has found the queue and selected them.
    received :
        (w : World) (name : String) (max : ℤ) (db : Db) (out : List QueueMessage)
        → (receive_messages trim w name max db).0 ≡ ok out
        → (q : Queue) × (get_queue w.fails name db ≡ some q)
          × (out ≡ selected trim w q max db)
          × ((receive_messages trim w name max db).1
              ≡ move_to_dlq trim w q out (
                  hide_all w.fails (stamp (add_seconds w.now q.visibility_timeout_seconds)) out db))
    unfolding receive_messages
    received w name max db out r = elim (Option-cases (get_queue w.fails name db)) [
      | inl e ↦ absurd (ground (arith, (rw (receive_messages, e) at r)))
      | inr (q, e) ↦ elim (Bool-cases (w.fails Eventing.select_messages)) [
        | inl g ↦ absurd (ground (arith, (rw (receive_messages, e, g) at r)))
        | inr g ↦
            let same : selected trim w q max db ≡ out =
              ground (arith, (rw (receive_messages, e, g) at r)) in
            (
              q,
              e,
              sym same,
              rw (receive_messages, e, g)
                  (ap
                    (λ x. move_to_dlq trim w q x (
                      hide_all w.fails (stamp (add_seconds w.now q.visibility_timeout_seconds)) x
                        db))
                    same),
            )
      ]
    ]

    receive-other :
        (w : World) (name : String) (max : ℤ) (db : Db) (out : List QueueMessage)
        → stamp w.now < until
        → Hidden id until db
        → (receive_messages trim w name max db).0 ≡ ok out
        → any (λ m. str_eq m.id id) out ≡ false
    receive-other w name max db out h a r =
        let (q, found, chosen, after) = received w name max db out r in
        rw chosen (none_of (selected trim w q max db) (selected-other w q max db h a))

    receive-own :
        (w : World) (name : String) (max : ℤ) (db : Db) (out : List QueueMessage) (q : Queue)
        → get_queue w.fails name db ≡ some q
        → stamp (add_seconds w.now q.visibility_timeout_seconds) ≡ until
        → ((i : String) → str_eq (w.new_id i) id ≡ false)
        → w.fails (hide_message id) ≡ false
        → (receive_messages trim w name max db).0 ≡ ok out
        → any (λ m. str_eq m.id id) out ≡ true
        → Hidden id until (receive_messages trim w name max db).1
    receive-own w name max db out q found time fresh up r got =
        let (q1, found1, chosen, after) = received w name max db out r in
        let same : q ≡ q1 = ground (arith, sym found ∙ found1) in
        let time1 =
          subst (λ x. stamp (add_seconds w.now x.visibility_timeout_seconds) ≡ until) same time in
        rw after (
          subst (λ t. Hidden id until (move_to_dlq trim w q1 out (hide_all w.fails t out db)))
            (sym time1)
            (move_to_dlq-Hidden id until trim w fresh q1 out (hide_all w.fails until out db)
              (hide_all-own id until w.fails out db got up)))

  -- More than a second before the timeout has passed since the call.
  abbrev pub Early : World → Queue → ℕ → Type 0
  Early w q now = now + 1_000_000_000 ≤ w.now + q.visibility_timeout_seconds * 1_000_000_000

  abbrev pub SparesEarly : String → World → Queue → World × Call → Type 0
  SparesEarly id w q c = Early w q c.0.now × ((i : String) → str_eq (c.0.new_id i) id ≡ false)

  add_seconds-lem : (now n : ℕ) → n < 9_000_000_000 → add_seconds now n ≡ now + n * 1_000_000_000
  unfolding add_seconds wrap64
  add_seconds-lem now n h = ground arith

  stamp-lt :
      (w : World) (q : Queue) (now : ℕ)
      → q.visibility_timeout_seconds < 9_000_000_000
      → Early w q now
      → stamp now < stamp (add_seconds w.now q.visibility_timeout_seconds)
  stamp-lt w q now h e = rw (add_seconds-lem w.now q.visibility_timeout_seconds h) (omega arith)

  early-Spares :
      (id : String) (w : World) (q : Queue) (calls : List (World × Call))
      → q.visibility_timeout_seconds < 9_000_000_000
      → All (SparesEarly id w q) calls
      → All (Spares id (stamp (add_seconds w.now q.visibility_timeout_seconds))) calls
  early-Spares id w q [] h a = tt
  early-Spares id w q ((v, c) ∷ calls) h a =
      ((stamp-lt w q v.now h a.0.0, a.0.1), early-Spares id w q calls h a.1)

  -- A message that a call of ReceiveMessages returned and hid is returned by no call that is made at least
  -- a second before the queue's timeout has passed, whatever calls are made in between and whichever of
  -- their statements fail, if no new message gets its id and the timeout is below 9 * 10 ^ 9 seconds.
  pub receive_hides :
      (w again : World) (name name1 id : String) (max max1 : ℤ) (db : Db) (q : Queue)
      (out out1 : List QueueMessage) (calls : List (World × Call))
      → get_queue w.fails name db ≡ some q
      → q.visibility_timeout_seconds < 9_000_000_000
      → (receive_messages trim w name max db).0 ≡ ok out
      → any (λ m. str_eq m.id id) out ≡ true
      → w.fails (hide_message id) ≡ false
      → ((i : String) → str_eq (w.new_id i) id ≡ false)
      → All (SparesEarly id w q) calls
      → Early w q again.now
      → (receive_messages trim again name1 max1
          (run calls (receive_messages trim w name max db).1)).0
        ≡ ok out1
      → any (λ m. str_eq m.id id) out1 ≡ false
  receive_hides w again name name1 id max max1 db q out out1 calls found bound first got up fresh
        spared early second =
      let until = stamp (add_seconds w.now q.visibility_timeout_seconds) in
      let hid = receive-own id until w name max db out q found refl fresh up first got in
      receive-other id until again name1 max1 _ out1 (stamp-lt w q again.now bound early)
        (run-Hidden id until calls (receive_messages trim w name max db).1
          (early-Spares id w q calls bound spared) hid)
        second

-- ===== src/Sessions/Session/Offline.antt =====
-- The offline queue of sessions/session.go.
use magic_mqtt.Prelude.{
  ℕ, zero, suc, ◌≤◌, ◌≡◌, refl, sym, ap, ◌∙◌, true, false, Bool-cases, inl, inr, Option, none, some,
  List, [], ◌∷◌, ◌++◌, append-nil, append_assoc, length, length-append, take, take-append, leb,
  leb→le, arith,
}
use magic_mqtt.Message.{Message}
use magic_mqtt.Packet.Publish.{Publish}
use magic_mqtt.Sessions.Session.{
  Session, offline_queue_full, new_session, with_client_id, with_on_disconnect, with_on_write,
  add_topics, remove_topics, push_offline_message, write_with, write_message, offline_messages,
  register_message, unref_message, replace_on_finish,
}

take_all : (n : ℕ) (xs : List Message) → length xs ≤ n → take n xs ≡ xs
take_all zero [] b = refl
take_all zero (x ∷ xs) b = absurd (omega arith)
take_all (suc n) [] b = refl
take_all (suc n) (x ∷ xs) b = ap (λ ys. x ∷ ys) (take_all n xs (omega arith))

module _ {C : Type 0} where
  -- What the methods can make of a new session.
  pub data Reached : Session C → Type 0 where
    start : (limit : ℕ) → Reached (new_session limit)
    named : {s : Session C} → Reached s → (id : List ℕ) → Reached (with_client_id id s)
    on_disconnect_set :
        {s : Session C} → Reached s → (f : Option C) → Reached (with_on_disconnect f s)
    on_write_set : {s : Session C} → Reached s → (f : Option C) → Reached (with_on_write f s)
    on_finish_set : {s : Session C} → Reached s → Reached (replace_on_finish s)
    topic_added :
        {s : Session C} → Reached s → (topic : List ℕ) (qos : ℕ) → Reached (add_topics topic qos s)
    topic_removed : {s : Session C} → Reached s → (topic : List ℕ) → Reached (remove_topics topic s)
    pushed : {s : Session C} → Reached s → (msg : Message) → Reached (push_offline_message msg s).1
    written : {s : Session C} → Reached s → (msg : Message) → Reached (write_message msg s).1
    emptied : {s : Session C} → Reached s → Reached (offline_messages s).1
    registered : {s : Session C} → Reached s → (msg : Publish) → Reached (register_message msg s).2
    unreferenced : {s : Session C} → Reached s → (id : ℕ) → Reached (unref_message id s)

  unfoldable pub Bounded : Session C → Type 0
  Bounded s = length s.offline_queue ≤ s.offline_limit

  push-Bounded :
      (s : Session C) (msg : Message) → Bounded s → Bounded (push_offline_message msg s).1
  unfolding push_offline_message Bounded
  push-Bounded s msg b = elim (Bool-cases (leb s.offline_limit (length s.offline_queue))) [
    | inl e ↦ rw e b
    | inr e ↦ rw e (let len = length-append {0} s.offline_queue (msg ∷ []) in ground arith)
  ]

  write-Bounded : (s : Session C) (msg : Message) → Bounded s → Bounded (write_message msg s).1
  unfolding write_message
  write-Bounded s msg b = by_writer s.on_write
    where
      by_writer : (f : Option C) → Bounded (write_with f msg s).1
      by_writer none = push-Bounded s msg b
      by_writer (some f) = b

  -- After any calls of the methods of a session its offline queue holds no more messages than its
  -- limit.
  pub Reached-Bounded : (s : Session C) → Reached s → Bounded s
  unfolding Bounded new_session with_client_id with_on_disconnect with_on_write replace_on_finish
      add_topics remove_topics offline_messages register_message unref_message
  Reached-Bounded _ (start limit) = omega arith
  Reached-Bounded _ (named {s = s} r id) = Reached-Bounded s r
  Reached-Bounded _ (on_disconnect_set {s = s} r f) = Reached-Bounded s r
  Reached-Bounded _ (on_write_set {s = s} r f) = Reached-Bounded s r
  Reached-Bounded _ (on_finish_set {s = s} r) = Reached-Bounded s r
  Reached-Bounded _ (topic_added {s = s} r topic qos) = Reached-Bounded s r
  Reached-Bounded _ (topic_removed {s = s} r topic) = Reached-Bounded s r
  Reached-Bounded _ (pushed {s = s} r msg) = push-Bounded s msg (Reached-Bounded s r)
  Reached-Bounded _ (written {s = s} r msg) = write-Bounded s msg (Reached-Bounded s r)
  Reached-Bounded _ (emptied {s = s} r) = omega arith
  Reached-Bounded _ (registered {s = s} r msg) = Reached-Bounded s r
  Reached-Bounded _ (unreferenced {s = s} r id) = Reached-Bounded s r

  -- The session after some messages are written to it.
  unfoldable pub write_all : List Message → Session C → Session C
  write_all [] s = s
  write_all (m ∷ ms) s = write_all ms (write_message m s).1

  -- The session after some messages are pushed to its queue.
  unfoldable pub push_all : List Message → Session C → Session C
  push_all [] s = s
  push_all (m ∷ ms) s = push_all ms (push_offline_message m s).1

  push_full :
      (s : Session C) (msg : Message)
      → leb s.offline_limit (length s.offline_queue) ≡ true
      → push_offline_message msg s ≡ (some offline_queue_full, s)
  unfolding push_offline_message
  push_full s msg f = rw f refl

  push_room :
      (s : Session C) (msg : Message)
      → leb s.offline_limit (length s.offline_queue) ≡ false
      → push_offline_message msg s
        ≡ (none, record s { offline_queue = s.offline_queue ++ msg ∷ [] })
  unfolding push_offline_message
  push_room s msg f = rw f refl

  push_all_cons :
      (m : Message) (ms : List Message) (s : Session C)
      → push_all (m ∷ ms) s ≡ push_all ms (push_offline_message m s).1
  unfolding push_all
  push_all_cons m ms s = refl

  pub push_all-queue :
      (ms : List Message) (s : Session C)
      → Bounded s
      → (push_all ms s).offline_queue ≡ take s.offline_limit (s.offline_queue ++ ms)
  unfolding Bounded
  push_all-queue [] s b =
      unfold push_all in
      sym (
        ap (take s.offline_limit) (append-nil s.offline_queue)
        ∙ take_all s.offline_limit s.offline_queue (unfold Bounded in b))
  push_all-queue (m ∷ ms) s b = elim (Bool-cases (leb s.offline_limit (length s.offline_queue))) [
    | inl f ↦
        let l : s.offline_limit ≡ length s.offline_queue =
          let low = leb→le s.offline_limit (length s.offline_queue) f in
          let high : length s.offline_queue ≤ s.offline_limit = (unfold Bounded in b) in
          omega arith in
        rw (push_all_cons, push_full s m f)
          (push_all-queue ms s b
            ∙ rw l (take-append s.offline_queue ms ∙ sym (take-append s.offline_queue (m ∷ ms))))
    | inr f ↦
        let s' : Session C = record s { offline_queue = s.offline_queue ++ m ∷ [] } in
        let more : Bounded s' =
          unfold Bounded in
          (let len = length-append {0} s.offline_queue (m ∷ []) in ground arith) in
        rw (push_all_cons, push_room s m f)
          (push_all-queue ms s' more
            ∙ ap (take s.offline_limit) (append_assoc s.offline_queue (m ∷ []) ms))
  ]

  pub push-on_write :
      (s : Session C) (msg : Message) → (push_offline_message msg s).1.on_write ≡ s.on_write
  unfolding push_offline_message
  push-on_write s msg = elim (Bool-cases (leb s.offline_limit (length s.offline_queue))) [
    | inl e ↦ rw e refl
    | inr e ↦ rw e refl
  ]

  pub push_all-on_write :
      (ms : List Message) (s : Session C) → (push_all ms s).on_write ≡ s.on_write
  unfolding push_all
  push_all-on_write [] s = refl
  push_all-on_write (m ∷ ms) s =
      push_all-on_write ms (push_offline_message m s).1 ∙ push-on_write s m

  write_all-push :
      (ms : List Message) (s : Session C) → s.on_write ≡ none → write_all ms s ≡ push_all ms s
  unfolding write_all push_all write_message
  write_all-push [] s e = refl
  write_all-push (m ∷ ms) s e =
      ap (λ (f : Option C). write_all ms (write_with f m s).1) e
      ∙ write_all-push ms (push_offline_message m s).1 (push-on_write s m ∙ e)

  -- What is written to a session that has no writer, after any calls of its methods, comes back
  -- from `OfflineMessages` in order behind what was in the queue, up to the limit; the messages
  -- beyond it are lost. The queue is empty then.
  pub offline_messages-write_all :
      (ms : List Message) (s : Session C)
      → Reached s
      → s.on_write ≡ none
      → ((offline_messages (write_all ms s)).0 ≡ take s.offline_limit (s.offline_queue ++ ms))
        × ((offline_messages (write_all ms s)).1.offline_queue ≡ [])
  unfolding offline_messages
  offline_messages-write_all ms s r e =
      (rw (write_all-push ms s e) (push_all-queue ms s (Reached-Bounded s r)), refl)

-- ===== src/Server/Publish/Delivery.antt =====
-- To whom `SendPublishMessage` of server/conBroker.go hands a message: a count for each connection
-- and each session.
use magic_mqtt.Prelude.{
  ℕ, suc, ◌≡◌, refl, sym, ap, ◌∙◌, Bool, true, false, Bool-cases, inl, inr, Option, none, some, [],
  ◌∷◌, ◌++◌, ◌≤◌, ◌+◌, length, arith, replicate, ==_iff, ◌==◌, if◌then◌else◌,
}
use magic_mqtt.Message.{Message}
use magic_mqtt.Sessions.Session.{
  Session, passed, kept, write_with, write_message, push_offline_message,
}
use magic_mqtt.Sessions.Session.Offline.{push-on_write}
use magic_mqtt.Topics.Value.{Value, nothing, pointer, func, string, number}
use magic_mqtt.Topics.Subscription.{Subs}
use magic_mqtt.Sessions.Group.{group_get}
use magic_mqtt.Server.State.{Board, Conn}
use magic_mqtt.Server.Action.{Result, done, bind, set_conn, set_session, set_lock, send, unlock}
use magic_mqtt.Server.Action.States.{set_session_self, send_open, locked_back}
use magic_mqtt.Server.Publish.{session_write, distribute}

-- The subscribers that a test holds for.
unfoldable pub count : (Value → Bool) → Subs → ℕ
count f [] = 0
count f ((v, q) ∷ es) = let n = count f es in if f v then suc n else n

abbrev pub names : Option ℕ → ℕ → Bool
names none a = false
names (some x) a = x == a

-- The connection that a session, if there is one, writes to.
abbrev pub conn_of : (ℕ → Option ℕ) → Option ℕ → Option ℕ
conn_of writer none = none
conn_of writer (some a) = writer a

abbrev pub unless_some : ℕ → Option ℕ → Option ℕ
unless_some a none = some a
unless_some a (some c) = none

-- The session, if it writes to no connection.
abbrev pub offline_of : (ℕ → Option ℕ) → Option ℕ → Option ℕ
offline_of writer none = none
offline_of writer (some a) = unless_some a (writer a)

abbrev pub more_in : ℕ → Message → Conn → Conn
more_in n msg k = record k { queue = k.queue ++ replicate n msg }

write_passed :
    (s : Session ℕ) (c : ℕ) (msg : Message)
    → s.on_write ≡ some c
    → write_message msg s ≡ (passed c, s)
unfolding write_message
write_passed s c msg e = ap (λ f. write_with f msg s) e

write_kept :
    (s : Session ℕ) (msg : Message)
    → s.on_write ≡ none
    → write_message msg s ≡ kept (push_offline_message msg s)
unfolding write_message
write_kept s msg e = ap (λ f. write_with f msg s) e

module _ {A : Type 0} where
  -- The session of a subscriber's client.
  abbrev pub session_of : Board A → Value → Option ℕ
  session_of w (pointer p) = group_get (w.subs p).client w.sessions
  session_of w _ = none

  abbrev pub writer_of : Board A → ℕ → Option ℕ
  writer_of w a = (w.sessions.heap a).on_write

  -- Whether a message for a subscriber goes to a connection, and into the offline queue of a session.
  abbrev pub sent_to : Board A → ℕ → Value → Bool
  sent_to w c v = names (conn_of (writer_of w) (session_of w v)) c

  abbrev pub kept_in : Board A → ℕ → Value → Bool
  kept_in w a v = names (offline_of (writer_of w) (session_of w v)) a

  -- No lock is taken, and the queues that sessions write to are open and have room for `n` messages.
  pub record IsLive (n : ℕ) (w : Board A) : Type 0 where
    pub free : (a : ℕ) → w.locked a ≡ false
    pub queue_open :
        (a c : ℕ) → (w.sessions.heap a).on_write ≡ some c → (w.conns c).queue_closed ≡ false
    pub room :
        (a c : ℕ)
        → (w.sessions.heap a).on_write ≡ some c
        → length (w.conns c).queue + n ≤ (w.conns c).capacity

  pub weaken-IsLive : (n : ℕ) (w : Board A) → IsLive (suc n) w → IsLive n w
  weaken-IsLive n w live = record {
    free = live.free;
    queue_open = live.queue_open;
    room = λ a c h. let r = live.room a c h in omega arith;
  }

  pub distribute-none :
      (msg : Message) (v : Value) (w : Board A)
      → session_of w v ≡ none
      → distribute msg v w ≡ (done tt, w)
  unfolding distribute
  distribute-none msg (pointer p) w e = rw e refl
  distribute-none msg nothing w e = refl
  distribute-none msg (func f) w e = refl
  distribute-none msg (string s) w e = refl
  distribute-none msg (number k n) w e = refl

  pub distribute-some :
      (msg : Message) (v : Value) (a : ℕ) (w : Board A)
      → session_of w v ≡ some a
      → distribute msg v w ≡ session_write a msg w
  unfolding distribute
  distribute-some msg (pointer p) a w e = rw e refl
  distribute-some msg nothing a w e = cc
  distribute-some msg (func f) a w e = cc
  distribute-some msg (string s) a w e = cc
  distribute-some msg (number k n) a w e = cc

  pub session_write_sent :
      (a c n : ℕ) (msg : Message) (w : Board A)
      → IsLive (suc n) w
      → writer_of w a ≡ some c
      → session_write a msg w ≡ (done tt, set_conn c (more_in 1 msg (w.conns c)) w)
  unfolding session_write
  session_write_sent a c n msg w live e =
      let r = live.room a c e in
      rw (live.free a, write_passed (w.sessions.heap a) c msg e)
        (ap (λ (v : Board A). bind (send c msg v) (λ _. unlock a))
            (set_session_self a (set_lock a true w))
          ∙ ap (λ (p : Result (Unit {0}) × Board A). bind p (λ _. unlock a))
              (send_open c msg (set_lock a true w) (live.queue_open a c e) (omega arith))
          ∙ ap
              (λ (l : ℕ → Bool). (
                done tt,
                (let v = set_conn c (more_in 1 msg (w.conns c)) w in record v { locked = l }),
              ))
              (locked_back a w (live.free a)))

  pub session_write_kept :
      (a n : ℕ) (msg : Message) (w : Board A)
      → IsLive n w
      → writer_of w a ≡ none
      → session_write a msg w
        ≡ (done tt, set_session a (push_offline_message msg (w.sessions.heap a)).1 w)
  unfolding session_write
  session_write_kept a n msg w live e =
      rw (live.free a, write_kept (w.sessions.heap a) msg e)
        (ap
          (λ (l : ℕ → Bool). (
            done tt,
            (let v = set_session a (push_offline_message msg (w.sessions.heap a)).1 w in
                record v { locked = l }),
          ))
          (locked_back a w (live.free a)))

  pub set_conn-IsLive :
      (n m c : ℕ) (k : Conn) (w : Board A)
      → k.queue_closed ≡ (w.conns c).queue_closed
      → k.capacity ≡ (w.conns c).capacity
      → m ≤ n
      → length k.queue + m ≤ length (w.conns c).queue + n
      → IsLive n w
      → IsLive m (set_conn c k w)
  set_conn-IsLive n m c k w e r less l live = record {
    free = live.free;
    queue_open = λ a d h. elim (Bool-cases (c == d)) [
      | inl t ↦ rw (t, e, (==_iff c d).0 t) (live.queue_open a d h)
      | inr t ↦ rw t (live.queue_open a d h)
    ];
    room = λ a d h. elim (Bool-cases (c == d)) [
      | inl t ↦
          let same : c ≡ d = (==_iff c d).0 t in
          let old : length (w.conns c).queue + n ≤ (w.conns c).capacity =
            rw same (live.room a d h) in
          rw (t, r) (omega arith)
      | inr t ↦ rw t (let old = live.room a d h in omega arith)
    ];
  }

  -- A push leaves the connection that each session writes to.
  pub writer_of-push :
      (a : ℕ) (msg : Message) (w : Board A)
      → writer_of (set_session a (push_offline_message msg (w.sessions.heap a)).1 w) ≡ writer_of w
  writer_of-push a msg w i b = by_test (a == b) refl i
    where
      by_test :
          (t : Bool)
          → (a == b) ≡ t
          → (if t
              then (push_offline_message msg (w.sessions.heap a)).1
              else w.sessions.heap b).on_write
            ≡ (w.sessions.heap b).on_write
      by_test true e =
          push-on_write (w.sessions.heap a) msg
          ∙ ap (λ b. (w.sessions.heap b).on_write) ((==_iff a b).0 e)
      by_test false e = refl

  pub push-IsLive :
      (a n : ℕ) (msg : Message) (w : Board A)
      → IsLive n w
      → IsLive n (set_session a (push_offline_message msg (w.sessions.heap a)).1 w)
  push-IsLive a n msg w live = record {
    free = live.free;
    queue_open = λ b c h.
        live.queue_open b c (sym (ap (λ (f : ℕ → Option ℕ). f b) (writer_of-push a msg w)) ∙ h);
    room =
        λ b c h. live.room b c (sym (ap (λ (f : ℕ → Option ℕ). f b) (writer_of-push a msg w)) ∙ h);
  }

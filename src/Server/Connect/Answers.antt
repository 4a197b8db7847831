-- ===== src/Server/Connect/Answers.antt =====
-- What `onConnect` of server/conBroker.go answers where it returns.
use magic_mqtt.Prelude.{
  ℕ, ◌≡◌, refl, ap, ◌∙◌, true, false, Option, none, some, [], ◌∷◌, ◌++◌, length, ◌<◌, ◌≤◌, ◌+◌,
  ==_refl,
}
use magic_mqtt.Packet.Connect.{Connect}
use magic_mqtt.Packet.Connack
use magic_mqtt.Message.{Message, connack}
use magic_mqtt.Sessions.Session.{
  Session, do_disconnect, with_client_id, with_on_write, with_on_disconnect, offline_messages,
}
use magic_mqtt.Sessions.StringMap.{lookup}
use magic_mqtt.Sessions.Group.{group_get_or_new}
use magic_mqtt.Server.State.{Board, Conn, AuthError}
use magic_mqtt.Server.Action.{
  Action, Result, done, bind, pure, ◌>>◌, send, set_conn, set_session, update_session,
  change_session, set_lock,
}
use magic_mqtt.Server.Action.States.{
  update_session-free, set_session_twice, set_conn_twice, send_open, for_each-send,
}
use magic_mqtt.Server.Close.{change_conn, disconnect_session}
use magic_mqtt.Server.Connect.{
  refusal, will_or, connack_of, auth_connect, answer_auth, on_connect, use_client, resume,
}

-- The CONNACK with the code 0.
abbrev pub accepted : Message
accepted = connack (record Connack.spawn { return_code = 0 })

-- The connection and the session behind the rest of `accept`.
abbrev pub in_use : Connect → Conn → Conn
in_use msg k = record k {
  clean_session = msg.clean_session;
  will_msg = will_or msg.will k.will_msg;
  connected = true;
  queue = k.queue ++ accepted ∷ [];
}

abbrev pub used_by : ℕ → Connect → Session ℕ → Session ℕ
used_by c msg s = record s { client_id = msg.identifier; on_write = some c; on_disconnect = some c }

module _ {A : Type 0} where
  pub on_connect_answer :
      (c : ℕ) (msg : Connect) (e : Option AuthError) (w : Board A)
      → (w.conns c).connected ≡ false
      → (w.auth.connect msg.identifier msg.user_name msg.password w.auth.state).0 ≡ e
      → on_connect c msg w ≡ answer_auth c msg e (auth_connect msg w).1
  unfolding on_connect
  on_connect_answer c msg e w n auth = rw (n, auth) refl

  -- Where authentication has an error, `onConnect` of a connection that has not connected answers the
  -- CONNACK with the code for the error, 5 or 4, on its open queue, if that
  -- has room for a message, and does nothing else.
  pub on_connect_refused :
      (c : ℕ) (msg : Connect) (e : AuthError) (w : Board A)
      → (w.conns c).connected ≡ false
      → (w.conns c).queue_closed ≡ false
      → length (w.conns c).queue < (w.conns c).capacity
      → (w.auth.connect msg.identifier msg.user_name msg.password w.auth.state).0 ≡ some e
      → on_connect c msg w ≡ (
        done tt,
        set_conn c
            (record (w.conns c) { queue = (w.conns c).queue ++ connack_of (refusal e) ∷ [] })
            (auth_connect msg w).1,
      )
  on_connect_refused c msg e w n o r auth =
      on_connect_answer c msg (some e) w n auth
      ∙ (send_open c (connack_of (refusal e)) (auth_connect msg w).1 o r)

  -- A session without a function is only locked and given back.
  pub disconnect_session_idle :
      (a : ℕ) (w : Board A)
      → w.locked a ≡ false
      → (w.sessions.heap a).on_disconnect ≡ none
      → disconnect_session a w ≡ (done tt, set_lock a false (set_lock a true w))
  unfolding disconnect_session do_disconnect
  disconnect_session_idle a w l e = rw (l, e) refl

  pub resume_idle :
      (c a : ℕ) (msg : Connect) (w : Board A)
      → (w.conns c).queue_closed ≡ false
      → length (w.conns c).queue + length (w.sessions.heap a).offline_queue ≤ (w.conns c).capacity
      → lookup w.sessions.ss msg.identifier ≡ some a
      → w.locked a ≡ false
      → (w.sessions.heap a).on_disconnect ≡ none
      → (let s = w.sessions.heap a in
          let w1 = set_lock a false (set_lock a true w) in
          let k : Conn = record (w.conns c) { session = some a } in
          resume c msg w ≡ (
            done a,
            set_conn c
                (record k { queue = k.queue ++ s.offline_queue })
                (set_session a (record s { offline_queue = [] }) (set_conn c k w1)),
          ))
  unfolding resume group_get_or_new offline_messages
  resume_idle c a msg w o r f l e =
      rw (f, disconnect_session_idle a w l e, ==_refl a)
        (ap (λ (p : Result (Unit {0}) × Board A). bind p (λ _. pure a))
            (for_each-send c (w.sessions.heap a).offline_queue w3 (rw same o) (rw same r))
          ∙ rw same refl)
    where
      k : Conn
      k = record (w.conns c) { session = some a }

      s' : Session ℕ
      s' = record (w.sessions.heap a) { offline_queue = [] }

      w3 : Board A
      w3 = set_session a s' (set_conn c k (set_lock a false (set_lock a true w)))

      same : w3.conns c ≡ k
      same = rw (==_refl c) refl

  pub use_client_lem :
      (c a : ℕ) (msg : Connect) (w : Board A)
      → (w.conns c).queue_closed ≡ false
      → length (w.conns c).queue < (w.conns c).capacity
      → w.locked a ≡ false
      → use_client c msg a w ≡ (
        done tt,
        set_conn c (in_use msg (w.conns c)) (set_session a (used_by c msg (w.sessions.heap a)) w),
      )
  unfolding send with_client_id with_on_write with_on_disconnect
  use_client_lem c a msg w o r l =
      update_session-free a (with_on_disconnect (some c)) rest1 w l
      ∙ update_session-free a (with_on_write (some c)) rest2 w1 l
      ∙ ap rest3 all
      ∙ send_open c (connack_of 0) (set_conn c k wf) (rw (==_refl c) o) (rw (==_refl c) r)
      ∙ rw (==_refl c)
          (ap (λ (v : Board A). (done tt, v)) (set_conn_twice c k (in_use msg (w.conns c)) wf))
    where
      k : Conn
      k = record (w.conns c) {
        clean_session = msg.clean_session;
        will_msg = will_or msg.will (w.conns c).will_msg;
        connected = true;
      }

      wf : Board A
      wf = set_session a (used_by c msg (w.sessions.heap a)) w

      rest3 : Action A (Unit {0})
      rest3 = do
        change_conn c (λ k. record k {
          clean_session = msg.clean_session;
          will_msg = will_or msg.will k.will_msg;
          connected = true;
        })
        send c (connack_of 0)

      rest2 : Action A (Unit {0})
      rest2 = do change_session a (with_client_id msg.identifier); rest3

      rest1 : Action A (Unit {0})
      rest1 = do update_session a (with_on_write (some c)); rest2

      w1 : Board A
      w1 = set_session a (with_on_disconnect (some c) (w.sessions.heap a)) w

      w2 : Board A
      w2 = set_session a (with_on_write (some c) (w1.sessions.heap a)) w1

      w3 : Board A
      w3 = set_session a (with_client_id msg.identifier (w2.sessions.heap a)) w2

      s1 : Session ℕ
      s1 = record (w.sessions.heap a) { on_disconnect = some c }

      s2 : Session ℕ
      s2 = record s1 { on_write = some c }

      all : w3 ≡ wf
      all = rw (==_refl a) (
          set_session_twice a s2 (used_by c msg (w.sessions.heap a)) w1
          ∙ set_session_twice a s1 (used_by c msg (w.sessions.heap a)) w)

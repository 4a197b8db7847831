-- ===== src/Server/Connect/New.antt =====
-- `onConnect` of server/conBroker.go for a client without a session.
use magic_mqtt.Prelude.{
  ℕ, ◌+◌, ◌<◌, length, ◌≡◌, refl, ap, ◌∙◌, Bool, true, false, none, some, [], ◌∷◌, ◌++◌, ==_refl,
  if◌then◌else◌,
}
use magic_mqtt.Packet.Connect.{Connect}
use magic_mqtt.Packet.Connack
use magic_mqtt.Message.{connack}
use magic_mqtt.Sessions.Session.{Session, new_session, offline_messages}
use magic_mqtt.Topics.Level.{same_iff}
use magic_mqtt.Sessions.StringMap.{lookup, store, lookup-store}
use magic_mqtt.Common.MessageTable.{update}
use magic_mqtt.Sessions.Group.{group_get, group_new, group_get_or_new}
use magic_mqtt.Server.State.{Board, Conn}
use magic_mqtt.Server.Action.{Result, done, bind, for_each, set_conn, set_session}
use magic_mqtt.Server.Action.States.{set_session_twice}
use magic_mqtt.Server.Connect.{auth_connect, on_connect, accept, use_client, clean_start, resume}
use magic_mqtt.Server.Connect.Answers.{in_use, used_by, on_connect_answer, use_client_lem}

module _ {A : Type 0} where
  accept_new :
      (c : ℕ) (msg : Connect) (w : Board A)
      → (w.conns c).queue_closed ≡ false
      → length (w.conns c).queue < (w.conns c).capacity
      → lookup w.sessions.ss msg.identifier ≡ none
      → w.locked w.sessions.next ≡ false
      → (let a = w.sessions.next in
          let r = accept c msg w in
          (r.0 ≡ done tt)
          × ((r.1.conns c).queue
              ≡ (w.conns c).queue ++ connack (record Connack.spawn { return_code = 0 }) ∷ [])
          × ((r.1.conns c).session ≡ some a)
          × (group_get msg.identifier r.1.sessions ≡ some a)
          × (r.1.sessions.heap a ≡ used_by c msg (new_session w.deploy.offline_queue_size)))
  unfolding accept group_new
  accept_new c msg w o r f l = rw chain (
    refl,
    rw (==_refl c) refl,
    rw (==_refl c) refl,
    unfold group_get in rw (lookup-store, (same_iff msg.identifier msg.identifier).1 refl) refl,
    rw (==_refl w.sessions.next) refl,
  )
    where
      a : ℕ
      a = w.sessions.next

      k : Conn
      k = record (w.conns c) { session = some a }

      w1 : Board A
      w1 = set_conn c k (record w {
        sessions = (group_new msg.identifier w.deploy.offline_queue_size w.sessions).1;
      })

      new : Session ℕ
      new = new_session w.deploy.offline_queue_size

      w0 : Board A
      w0 =
          let ss = store w.sessions.ss msg.identifier a in
          record w {
            sessions = record (w.sessions) { ss = ss; next = a + 1 };
            conns = update w.conns c k;
          }

      started : (b : Bool) → (if b then clean_start c msg else resume c msg) w ≡ (done a, w1)
      started true = unfold clean_start group_get in rw f refl
      started false =
          unfold resume group_get_or_new offline_messages for_each new_session in
          rw (f, ==_refl w.sessions.next, l)
            (ap (λ (v : Board A). (done a, v)) (set_session_twice a new new w0))

      chain : accept c msg w ≡ (
        done tt,
        set_conn c
            (in_use msg (w1.conns c))
            (set_session a (used_by c msg (w1.sessions.heap a)) w1),
      )
      chain =
          ap (λ (p : Result ℕ × Board A). bind p (use_client c msg)) (started msg.clean_session)
          ∙ use_client_lem c a msg w1 (rw (==_refl c) o) (rw (==_refl c) r) l

  -- `onConnect` of a connection that has not connected, with an open queue
  -- that has room for a message, for a client that
  -- authentication accepts and that has no session, where the lock of the next session of the heap is free: with and without a clean session it returns, the
  -- queue ends with the CONNACK with code 0, and the connection and the client have the next session
  -- of the heap, a new one with the limit of the settings that has the name of the client and calls
  -- this connection.
  pub on_connect_new :
      (c : ℕ) (msg : Connect) (w : Board A)
      → (w.conns c).connected ≡ false
      → (w.auth.connect msg.identifier msg.user_name msg.password w.auth.state).0 ≡ none
      → (w.conns c).queue_closed ≡ false
      → length (w.conns c).queue < (w.conns c).capacity
      → group_get msg.identifier w.sessions ≡ none
      → w.locked w.sessions.next ≡ false
      → (let a = w.sessions.next in
          let r = on_connect c msg w in
          (r.0 ≡ done tt)
          × ((r.1.conns c).queue
              ≡ (w.conns c).queue ++ connack (record Connack.spawn { return_code = 0 }) ∷ [])
          × ((r.1.conns c).session ≡ some a)
          × (group_get msg.identifier r.1.sessions ≡ some a)
          × (r.1.sessions.heap a ≡ used_by c msg (new_session w.deploy.offline_queue_size)))
  on_connect_new c msg w n auth o r f l =
      rw (on_connect_answer c msg none w n auth)
        (accept_new c msg (auth_connect msg w).1 o r (unfold group_get in f) l)

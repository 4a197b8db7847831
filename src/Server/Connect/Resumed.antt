-- ===== src/Server/Connect/Resumed.antt =====
-- `onConnect` of server/conBroker.go for a session that nobody uses.
use magic_mqtt.Prelude.{
  ℕ, ◌≡◌, refl, ap, ◌∙◌, true, false, none, some, [], ◌∷◌, ◌++◌, ◌<◌, ◌+◌, length, length-append,
  arith, ==_refl,
}
use magic_mqtt.Packet.Connect.{Connect}
use magic_mqtt.Packet.Connack
use magic_mqtt.Message.{connack}
use magic_mqtt.Sessions.Session.{Session}
use magic_mqtt.Sessions.StringMap.{lookup}
use magic_mqtt.Sessions.Group.{group_get}
use magic_mqtt.Server.State.{Board, Conn}
use magic_mqtt.Server.Action.{Result, done, bind, set_conn, set_session, set_lock}
use magic_mqtt.Server.Connect.{auth_connect, on_connect, accept, use_client, resume}
use magic_mqtt.Server.Connect.Answers.{
  in_use, used_by, on_connect_answer, use_client_lem, resume_idle,
}

module _ {A : Type 0} where
  accept_resumed :
      (c a : ℕ) (msg : Connect) (w : Board A)
      → msg.clean_session ≡ false
      → (w.conns c).queue_closed ≡ false
      → length (w.conns c).queue + length (w.sessions.heap a).offline_queue < (w.conns c).capacity
      → lookup w.sessions.ss msg.identifier ≡ some a
      → w.locked a ≡ false
      → (w.sessions.heap a).on_disconnect ≡ none
      → (let s = w.sessions.heap a in
          let r = accept c msg w in
          (r.0 ≡ done tt)
          × ((r.1.conns c).queue
              ≡ (w.conns c).queue
                ++ s.offline_queue
                ++ connack (record Connack.spawn { return_code = 0 }) ∷ [])
          × ((r.1.conns c).session ≡ some a)
          × ((r.1.conns c).connected ≡ true)
          × (r.1.sessions.heap a ≡ used_by c msg (record s { offline_queue = [] })))
  accept_resumed c a msg w clean o r f l e =
      rw chain
        (refl, rw (==_refl c) refl, rw (==_refl c) refl, rw (==_refl c) refl, rw (==_refl a) refl)
    where
      s : Session ℕ
      s = w.sessions.heap a

      k : Conn
      k = record (w.conns c) { session = some a }

      w1 : Board A
      w1 =
          set_conn c (record k { queue = k.queue ++ s.offline_queue })
            (set_session a (record s { offline_queue = [] })
              (set_conn c k (set_lock a false (set_lock a true w))))

      opened : accept c msg w ≡ bind (resume c msg w) (use_client c msg)
      opened = unfold accept in rw clean refl

      chain : accept c msg w ≡ (
        done tt,
        set_conn c
            (in_use msg (w1.conns c))
            (set_session a (used_by c msg (w1.sessions.heap a)) w1),
      )
      chain =
          opened
          ∙ ap (λ (p : Result ℕ × Board A). bind p (use_client c msg))
              (resume_idle c a msg w o (omega arith) f l e)
          ∙ use_client_lem c a msg w1 (rw (==_refl c) o)
              (rw (==_refl c)
                (let len = length-append (w.conns c).queue s.offline_queue in omega arith))
              (rw (==_refl a) refl)

  -- `onConnect` of a connection that has not connected, with an open queue
  -- that has room for a message more than the session keeps offline, for a client that
  -- authentication accepts, that asks for no clean session and whose session is not in use and not
  -- locked: it returns, the connection has the session, and its queue ends with the offline messages of the
  -- session in order, and the CONNACK with code 0 behind them. The session has no offline messages
  -- any more, and calls this connection.
  pub on_connect_resumed :
      (c a : ℕ) (msg : Connect) (w : Board A)
      → (w.conns c).connected ≡ false
      → (w.auth.connect msg.identifier msg.user_name msg.password w.auth.state).0 ≡ none
      → msg.clean_session ≡ false
      → (w.conns c).queue_closed ≡ false
      → length (w.conns c).queue + length (w.sessions.heap a).offline_queue < (w.conns c).capacity
      → group_get msg.identifier w.sessions ≡ some a
      → w.locked a ≡ false
      → (w.sessions.heap a).on_disconnect ≡ none
      → (let s = w.sessions.heap a in
          let r = on_connect c msg w in
          (r.0 ≡ done tt)
          × ((r.1.conns c).queue
              ≡ (w.conns c).queue
                ++ s.offline_queue
                ++ connack (record Connack.spawn { return_code = 0 }) ∷ [])
          × ((r.1.conns c).session ≡ some a)
          × ((r.1.conns c).connected ≡ true)
          × (r.1.sessions.heap a ≡ used_by c msg (record s { offline_queue = [] })))
  on_connect_resumed c a msg w n auth clean o r f l e =
      rw (on_connect_answer c msg none w n auth)
        (accept_resumed c a msg (auth_connect msg w).1 clean o r (unfold group_get in f) l e)

-- ===== src/Server/Close.antt =====
-- The end of a connection: `Close`, `Terminate` and `onDisconnect` of server/conBroker.go.
pub mod Waits
pub mod Ends
pub mod Clean
use magic_mqtt.Prelude.{
  ℕ, Bool, true, false, Option, none, some, List, [], ◌∷◌, ◌||◌, ◌==◌, if◌then◌else◌,
}
use magic_mqtt.Encoding.PType
use magic_mqtt.Message.{Message, get_type}
use magic_mqtt.Topics.Value.{pointer}
use magic_mqtt.Topics.Memory.{unsubscribe}
use magic_mqtt.Sessions.StringMap.{StringMap}
use magic_mqtt.Sessions.Session.{
  Session, push_offline_message, with_on_disconnect, with_on_write, do_disconnect,
}
use magic_mqtt.Sessions.Group.{group_remove}
use magic_mqtt.Server.State.{Board, Conn, Once, fresh, running, over, State}
use magic_mqtt.Server.Action.{
  Action, pure, panics, blocks, modify, ◌>>=◌, ◌>>◌, for_each, get_conn, put_conn, set_conn,
  on_session, update_session, set_lock, set_session,
}
use magic_mqtt.Server.Publish.{send_will}

-- The types that `Close` does not keep for the session.
abbrev pub is_dropped : Message → Bool
is_dropped m =
    let t = get_type m in
    t == PType.connect || t == PType.disconnect || t == PType.pingreq || t == PType.pingresp

module _ {A : Type 0} where
  abbrev pub change_conn : ℕ → (Conn → Conn) → Action A (Unit {0})
  change_conn c f = modify (λ w. set_conn c (f (w.conns c)) w)

  unfoldable pub keep_offline : ℕ → Message → Action A (Unit {0})
  keep_offline a msg =
      if is_dropped msg then pure tt else on_session a (push_offline_message msg) >> pure tt

  -- `for msg := range slf._queue`: nothing closes the channel before its end, so `Close` gets no
  -- further. The loop takes the messages of now and of later one by one, beside the goroutine that
  -- writes, which takes some of them: its turns are those of `drain_turn`.
  unfoldable pub drain : ℕ → Action A (Unit {0})
  drain c = do change_conn c (λ k. record k { draining = true }); blocks

  abbrev pub drain_next : ℕ → Conn → Option ℕ → List Message → Action A (Unit {0})
  drain_next c k a [] = pure tt
  drain_next c k none (m ∷ ms) = panics
  drain_next c k (some a) (m ∷ ms) = put_conn c (record k { queue = ms }) >> keep_offline a m

  -- A turn of the loop, where a message has come.
  unfoldable pub drain_turn : ℕ → Action A (Unit {0})
  drain_turn c = do k ← get_conn c; drain_next c k k.session k.queue

  -- Without a session there is only a warning, or nothing.
  abbrev pub leave_session : ℕ → Bool → Option ℕ → Action A (Unit {0})
  leave_session c clean none = pure tt
  leave_session c true (some a) =
      modify (λ w. record w { sessions = group_remove ((w.sessions.heap a).client_id) w.sessions })
  leave_session c false (some a) = drain c

  unfoldable pub unsubscribe_one : List ℕ × ℕ → Action A (Unit {0})
  unsubscribe_one e =
      modify
        (λ w. record w { topics = (unsubscribe w.topics ((w.subs e.1).topic) (pointer e.1)).1 })

  -- A receiver for `slf._closed <- true` is the goroutine that writes, which ends then, and with it
  -- the wait for the group.
  unfoldable pub stop_writing : ℕ → Action A (Unit {0})
  stop_writing c = do
    k ← get_conn c
    if k.writing then put_conn c (record k { writing = false }) else blocks

  abbrev pub forget_session : ℕ → Option ℕ → Action A (Unit {0})
  forget_session c none = pure tt
  forget_session c (some a) = do
    update_session a (with_on_disconnect none)
    update_session a (with_on_write none)
    change_conn c (λ k. record k { session = none })

  -- What is left of `Close` for the connection, as it was when it began.
  abbrev pub end_conn : ℕ → Conn → Action A (Unit {0})
  end_conn c k = do
    change_conn c (λ k. record k { state = State.closed })
    stop_writing c
    for_each unsubscribe_one k.subscription
    change_conn c (λ k. record k { queue_closed = true })
    forget_session c k.session

  -- The function that `_once` guards.
  unfoldable pub close_body : ℕ → Action A (Unit {0})
  close_body c = do
    k ← get_conn c
    send_will k.will_msg
    leave_session c k.clean_session k.session
    end_conn c k

  abbrev pub close_once : ℕ → Once → Action A (Unit {0})
  close_once c over = pure tt
  close_once c running = blocks
  close_once c fresh = do
    change_conn c (λ k. record k { once = running })
    close_body c
    change_conn c (λ k. record k { once = over })

  -- `Close`, and `Terminate`, which logs its error.
  unfoldable pub close : ℕ → Action A (Unit {0})
  close c w = close_once c (w.conns c).once w

  -- `onDisconnect`
  abbrev pub leave_quietly : ℕ → Option ℕ → Action A (Unit {0})
  leave_quietly c none = pure tt
  leave_quietly c (some a) = do
    update_session a (with_on_disconnect none)
    change_conn c (λ k. record k { will_msg = none })

  unfoldable pub on_disconnect : ℕ → Action A (Unit {0})
  on_disconnect c = do k ← get_conn c; leave_quietly c k.session; close c

  abbrev pub terminate : Option ℕ → Action A (Unit {0})
  terminate none = pure tt
  terminate (some c) = close c

  abbrev pub under_lock : ℕ → Action A (Unit {0}) → Action A (Unit {0})
  under_lock a m w =
      (if w.locked a then blocks else (do modify (set_lock a true); m; modify (set_lock a false))) w

  -- `session.DoDisconnect()`: the function is called while the lock is held.
  unfoldable pub disconnect_session : ℕ → Action A (Unit {0})
  disconnect_session a w = under_lock a (terminate (do_disconnect (w.sessions.heap a))) w

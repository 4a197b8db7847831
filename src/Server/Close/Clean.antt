-- ===== src/Server/Close/Clean.antt =====
-- `Close` of server/conBroker.go for a clean session.
use magic_mqtt.Prelude.{ℕ, ◌≡◌, refl, ap, ◌∙◌, Bool, true, false, none, some, ==_refl}
use magic_mqtt.Sessions.Session.{with_on_disconnect, with_on_write}
use magic_mqtt.Sessions.StringMap.{lookup-delete}
use magic_mqtt.Topics.Level.{same_iff}
use magic_mqtt.Sessions.Group.{group_get, group_remove}
use magic_mqtt.Server.State.{Board, Conn, State, fresh, running, over}
use magic_mqtt.Server.Action.{Action, Result, done, bind, set_conn}
use magic_mqtt.Server.Close.{leave_session, stop_writing, close, change_conn, end_conn}
use magic_mqtt.Server.Close.Waits.{
  unsubscribe_all, for_each-unsubscribe_one, close_body_lem, close_fresh,
}

module _ {A : Type 0} where
  -- The connection behind the end of `Close`, and the session that it had.
  end_conn_done :
      (c a : ℕ) (k : Conn) (w : Board A)
      → k.session ≡ some a
      → w.locked a ≡ false
      → (w.conns c).writing ≡ true
      → (let r = bind (end_conn c k w) (λ _. change_conn c (λ k. record k { once = over })) in
          (r.0 ≡ done tt)
          × (r.1.conns c ≡ record (w.conns c) {
            state = State.closed;
            writing = false;
            queue_closed = true;
            session = none;
            once = over;
          })
          × (r.1.sessions.heap a
              ≡ record (w.sessions.heap a) { on_disconnect = none; on_write = none })
          × (r.1.sessions.ss ≡ w.sessions.ss)
          × (r.1.topics ≡ unsubscribe_all w.subs k.subscription w.topics))
  unfolding stop_writing with_on_disconnect with_on_write
  end_conn_done c a k w e l t = (
    rw (==_refl c, t, for_each-unsubscribe_one, e, l, l) refl,
    rw (==_refl c, t, for_each-unsubscribe_one, e, l, l, ==_refl c) refl,
    rw (==_refl c, t, for_each-unsubscribe_one, e, l, l, ==_refl a) refl,
    rw (==_refl c, t, for_each-unsubscribe_one, e, l, l) refl,
    rw (==_refl c, t, for_each-unsubscribe_one, e, l, l) refl,
  )

  close_clean :
      (c a : ℕ) (w : Board A)
      → (w.conns c).once ≡ fresh
      → (w.conns c).will_msg ≡ none
      → (w.conns c).clean_session ≡ true
      → (w.conns c).session ≡ some a
      → (let k : Conn = record (w.conns c) { once = running } in
          let g = group_remove (w.sessions.heap a).client_id w.sessions in
          close c w
          ≡ bind
              (end_conn c k (record (set_conn c k w) { sessions = g }))
              (λ _. change_conn c (λ k. record k { once = over })))
  close_clean c a w o wl n f =
      close_fresh c w o
      ∙ ap (λ (p : Result (Unit {0}) × Board A). bind p rest) (close_body_lem c a w1 wl1 f1)
      ∙ ap
          (λ (b : Bool).
            bind (bind (leave_session c b (some a) w1) (λ _. end_conn c (w1.conns c))) rest)
          n1
      ∙ ap (λ (k : Conn). bind (end_conn c k w2) rest) same
    where
      w1 : Board A
      w1 = set_conn c (record (w.conns c) { once = running }) w

      w2 : Board A
      w2 = record w1 { sessions = group_remove (w.sessions.heap a).client_id w.sessions }

      same : w1.conns c ≡ record (w.conns c) { once = running }
      same = rw (==_refl c) refl

      wl1 : (w1.conns c).will_msg ≡ none
      wl1 = rw same wl

      n1 : (w1.conns c).clean_session ≡ true
      n1 = rw same n

      f1 : (w1.conns c).session ≡ some a
      f1 = rw same f

      rest : Unit {0} → Action A (Unit {0})
      rest _ = change_conn c (λ k. record k { once = over })

  -- `Close` of a connection with a clean session returns, where it is the first call, there is no
  -- will, the lock of the session is free and the goroutine that writes runs: the connection is
  -- closed, with its queue, and has no session, the session calls it no more, its client has none,
  -- and the subscriptions of the connection have been taken out of the provider one by one.
  pub close-ends :
      (c a : ℕ) (w : Board A)
      → (w.conns c).once ≡ fresh
      → (w.conns c).will_msg ≡ none
      → (w.conns c).clean_session ≡ true
      → (w.conns c).session ≡ some a
      → w.locked a ≡ false
      → (w.conns c).writing ≡ true
      → (let r = close c w in
          (r.0 ≡ done tt)
          × (r.1.conns c ≡ record (w.conns c) {
            state = State.closed;
            writing = false;
            queue_closed = true;
            session = none;
            once = over;
          })
          × (r.1.sessions.heap a
              ≡ record (w.sessions.heap a) { on_disconnect = none; on_write = none })
          × (group_get (w.sessions.heap a).client_id r.1.sessions ≡ none)
          × (r.1.topics ≡ unsubscribe_all w.subs (w.conns c).subscription w.topics))
  close-ends c a w o wl n f l t =
      let id = (w.sessions.heap a).client_id in
      let k : Conn = record (w.conns c) { once = running } in
      let w2 : Board A = record (set_conn c k w) { sessions = group_remove id w.sessions } in
      let (ended, conn, heap, ss, topics) = end_conn_done c a k w2 f l (rw (==_refl c) t) in
      rw (close_clean c a w o wl n f) (
        ended,
        conn ∙ rw (==_refl c) refl,
        heap ∙ unfold group_remove in refl,
        unfold group_get group_remove in
            rw (ss, lookup-delete w.sessions.ss id id, (same_iff id id).1 refl) refl,
        topics,
      )

-- ===== src/Server/Close/Ends.antt =====
-- What `Close` of server/conBroker.go has done where it returns, and where it waits for ever.
use magic_mqtt.Prelude.{
  ℕ, ◌≡◌, refl, ap, ◌∙◌, Bool, true, false, Bool-cases, inl, inr, none, some, List, [], ◌∷◌, ◌++◌,
  take, ==_refl, ◌==◌, ◌||◌, if◌then◌else◌,
}
use magic_mqtt.Message.{Message, get_type}
use magic_mqtt.Sessions.Session.{push_offline_message}
use magic_mqtt.Sessions.Session.Offline.{Bounded, push_all, push_all-queue}
use magic_mqtt.Server.State.{Board, Conn, fresh, running, over}
use magic_mqtt.Server.Action.{Action, Result, done, blocked, bind, set_conn, set_session}
use magic_mqtt.Server.Action.States.{set_conn_twice}
use magic_mqtt.Server.Close.{
  is_dropped, keep_offline, drain, drain_next, drain_turn, leave_session, close, change_conn,
  end_conn,
}
use magic_mqtt.Server.Close.Waits.{close_body_lem, close_fresh}

-- The numbers of CONNECT, DISCONNECT, PINGREQ and PINGRESP, which mean nothing to a session.
abbrev pub is_of_connection : ℕ → Bool
is_of_connection t = t == 1 || t == 14 || t == 12 || t == 13

module _ {A : Type 0} where
  keep_dropped :
      (a : ℕ) (m : Message) (w : Board A) → is_dropped m ≡ true → keep_offline a m w ≡ (done tt, w)
  unfolding keep_offline
  keep_dropped a m w d = rw d refl

  keep_one :
      (a : ℕ) (m : Message) (w : Board A)
      → is_dropped m ≡ false
      → w.locked a ≡ false
      → keep_offline a m w
        ≡ (done tt, set_session a (push_offline_message m (w.sessions.heap a)).1 w)
  unfolding keep_offline
  keep_one a m w d l = rw (d, l) refl

  drain_turn_lem :
      (c a : ℕ) (m : Message) (ms : List Message) (w : Board A)
      → (w.conns c).queue ≡ m ∷ ms
      → (w.conns c).session ≡ some a
      → drain_turn c w ≡ keep_offline a m (set_conn c (record (w.conns c) { queue = ms }) w)
  unfolding drain_turn
  drain_turn_lem c a m ms w q f =
      ap (λ qs. drain_next c (w.conns c) (w.conns c).session qs w) q
      ∙ ap (λ n. drain_next c (w.conns c) n (m ∷ ms) w) f

  drain_lem :
      (c : ℕ) (w : Board A)
      → drain c w ≡ (blocked, set_conn c (record (w.conns c) { draining = true }) w)
  unfolding drain
  drain_lem c w = refl

  -- Where the connection waits, with its queue and its session as they were.
  abbrev waiting : ℕ → Board A → Board A
  waiting c w = set_conn c (record (w.conns c) { once = running; draining = true }) w

  close_kept :
      (c a : ℕ) (w : Board A)
      → (w.conns c).once ≡ fresh
      → (w.conns c).will_msg ≡ none
      → (w.conns c).clean_session ≡ false
      → (w.conns c).session ≡ some a
      → close c w ≡ (blocked, waiting c w)
  close_kept c a w o wl n f =
      close_fresh c w o
      ∙ ap (λ (p : Result (Unit {0}) × Board A). bind p rest) (close_body_lem c a w1 wl1 f1)
      ∙ ap
          (λ (b : Bool).
            bind (bind (leave_session c b (some a) w1) (λ _. end_conn c (w1.conns c))) rest)
          n1
      ∙ ap (λ (p : Result (Unit {0}) × Board A). bind (bind p (λ _. end_conn c (w1.conns c))) rest)
          (drain_lem c w1)
      ∙ rw same (
          ap (λ (v : Board A). (blocked, v))
            (set_conn_twice c (record (w.conns c) { once = running })
              (record (w.conns c) { once = running; draining = true }) w))
    where
      w1 : Board A
      w1 = set_conn c (record (w.conns c) { once = running }) w

      same : w1.conns c ≡ record (w.conns c) { once = running }
      same = rw (==_refl c) refl

      wl1 : (w1.conns c).will_msg ≡ none
      wl1 = rw same wl

      n1 : (w1.conns c).clean_session ≡ false
      n1 = rw same n

      f1 : (w1.conns c).session ≡ some a
      f1 = rw same f

      rest : Unit {0} → Action A (Unit {0})
      rest _ = change_conn c (λ k. record k { once = over })

  -- A turn of the loop with the message in front of the queue.
  drain_turn-kept :
      (c a : ℕ) (m : Message) (ms : List Message) (w : Board A)
      → (w.conns c).queue ≡ m ∷ ms
      → (w.conns c).session ≡ some a
      → w.locked a ≡ false
      → Bounded (w.sessions.heap a)
      → (let t = drain_turn c w in
          let s = w.sessions.heap a in
          (t.0 ≡ done tt)
          × ((t.1.conns c).queue ≡ ms)
          × ((t.1.sessions.heap a).offline_queue ≡ (
              if is_of_connection (get_type m)
              then s.offline_queue
              else take s.offline_limit (s.offline_queue ++ m ∷ []))))
  drain_turn-kept c a m ms w q f l b = elim (Bool-cases (is_dropped m)) [
    | inl d ↦
        rw (drain_turn_lem c a m ms w q f, keep_dropped a m w1 d, d)
          (refl, rw (==_refl c) refl, refl)
    | inr d ↦
        rw (drain_turn_lem c a m ms w q f, keep_one a m w1 d l, d)
          (
            refl,
            rw (==_refl c) refl,
            rw (==_refl a) (unfold push_all in push_all-queue (m ∷ []) (w.sessions.heap a) b),
          )
  ]
    where
      w1 : Board A
      w1 = set_conn c (record (w.conns c) { queue = ms }) w

  -- `Close` of a connection whose session is not a clean one never returns, where it is the first
  -- call, there is no will, a message is in front of the queue, and the lock of the session is free
  -- and its offline queue within the limit: it changes nothing but that its loop receives from the
  -- queue, so the queue stays open, the state is the old one, the session still writes to the
  -- connection, and its subscriptions stay. The next turn of the loop takes the message out, and the
  -- session has it behind its offline messages, unless they are at the limit or it is a CONNECT,
  -- DISCONNECT, PINGREQ or PINGRESP, by the number of its type.
  pub close-waits :
      (c a : ℕ) (m : Message) (ms : List Message) (w : Board A)
      → (w.conns c).once ≡ fresh
      → (w.conns c).will_msg ≡ none
      → (w.conns c).clean_session ≡ false
      → (w.conns c).session ≡ some a
      → (w.conns c).queue ≡ m ∷ ms
      → w.locked a ≡ false
      → Bounded (w.sessions.heap a)
      → (let r = close c w in
          let t = drain_turn c r.1 in
          let s = w.sessions.heap a in
          (r.0 ≡ blocked)
          × (r.1.conns c ≡ record (w.conns c) { once = running; draining = true })
          × (r.1.sessions ≡ w.sessions)
          × (r.1.topics ≡ w.topics)
          × (t.0 ≡ done tt)
          × ((t.1.conns c).queue ≡ ms)
          × ((t.1.sessions.heap a).offline_queue ≡ (
              if is_of_connection (get_type m)
              then s.offline_queue
              else take s.offline_limit (s.offline_queue ++ m ∷ []))))
  close-waits c a m ms w o wl n f q l b =
      let conn : (waiting c w).conns c ≡ record (w.conns c) { once = running; draining = true } =
        rw (==_refl c) refl in
      let (fine, left, pushed) =
        drain_turn-kept c a m ms (waiting c w) (ap (λ (k : Conn). k.queue) conn ∙ q)
          (ap (λ (k : Conn). k.session) conn ∙ f) l b in
      rw (close_kept c a w o wl n f) (refl, conn, refl, refl, fine, left, pushed)

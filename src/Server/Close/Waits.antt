-- ===== src/Server/Close/Waits.antt =====
-- Where `Close` of server/conBroker.go waits for ever.
use magic_mqtt.Prelude.{
  ℕ, ◌≡◌, ◌≢◌, refl, ap, ◌∙◌, Bool, true, false, Bool-cases, inl, inr, none, some, List, [], ◌∷◌,
  ==_refl,
}
use magic_mqtt.Topics.Value.{pointer}
use magic_mqtt.Topics.Memory.{MemTopics, unsubscribe}
use magic_mqtt.Sessions.Group.{group_remove}
use magic_mqtt.Server.State.{Subscription, Board, Conn, Once, fresh, running, over}
use magic_mqtt.Server.Action.{Action, Result, done, panic, blocked, bind, for_each, set_conn}
use magic_mqtt.Server.Publish.{send_will}
use magic_mqtt.Server.Close.{
  drain, leave_session, unsubscribe_one, stop_writing, close_body, close, change_conn, end_conn,
}

-- The provider after the subscriptions of some entries are taken out.
unfoldable pub unsubscribe_all : (ℕ → Subscription) → List (List ℕ × ℕ) → MemTopics → MemTopics
unsubscribe_all subs [] m = m
unsubscribe_all subs ((topic, p) ∷ es) m =
    unsubscribe_all subs es (unsubscribe m (subs p).topic (pointer p)).1

module _ {A : Type 0} where
  drain-blocked : (c : ℕ) (w : Board A) → (drain {A = A} c w).0 ≡ blocked
  unfolding drain
  drain-blocked c w = refl

  pub bind-blocked :
      {X Y : Type 0} (p : Result X × Board A) (f : X → Action A Y)
      → p.0 ≡ blocked
      → (bind p f).0 ≡ blocked
  bind-blocked (done x, w) f e = cc
  bind-blocked (panic, w) f e = cc
  bind-blocked (blocked, w) f e = refl

  pub for_each-unsubscribe_one :
      (es : List (List ℕ × ℕ)) (w : Board A)
      → for_each unsubscribe_one es w
        ≡ (done tt, record w { topics = unsubscribe_all w.subs es w.topics })
  unfolding for_each unsubscribe_one unsubscribe_all
  for_each-unsubscribe_one [] w = refl
  for_each-unsubscribe_one ((topic, p) ∷ es) w =
      for_each-unsubscribe_one es
        (record w { topics = (unsubscribe w.topics (w.subs p).topic (pointer p)).1 })

  pub close_body_lem :
      (c a : ℕ) (w : Board A)
      → (w.conns c).will_msg ≡ none
      → (w.conns c).session ≡ some a
      → close_body c w
        ≡ bind (leave_session c (w.conns c).clean_session (some a) w) (λ _. end_conn c (w.conns c))
  unfolding close_body send_will
  close_body_lem c a w e f = rw (e, f) refl

  pub end_conn-blocked :
      (c a : ℕ) (k : Conn) (w : Board A)
      → k.session ≡ some a
      → w.locked a ≡ true
      → (end_conn c k w).0 ≡ blocked
  unfolding stop_writing
  end_conn-blocked c a k w e l = elim (Bool-cases (w.conns c).writing) [
    | inl t ↦ rw (==_refl c, t, for_each-unsubscribe_one, e, l) refl
    | inr t ↦ rw (==_refl c, t) refl
  ]

  pub close_fresh :
      (c : ℕ) (w : Board A)
      → (w.conns c).once ≡ fresh
      → close c w
        ≡ bind
            (close_body c (set_conn c (record (w.conns c) { once = running }) w))
            (λ _. change_conn c (λ k. record k { once = over }))
  unfolding close
  close_fresh c w e = rw e refl

  -- `Close` of a connection that has a session, whose lock is taken, and no will, and that has not
  -- returned from `Close` before, waits for ever.
  pub close-blocked :
      (c a : ℕ) (w : Board A)
      → (w.conns c).once ≢ over
      → (w.conns c).will_msg ≡ none
      → (w.conns c).session ≡ some a
      → w.locked a ≡ true
      → (close c w).0 ≡ blocked
  close-blocked c a w o e f l = by_once (w.conns c).once refl
    where
      w1 : Board A
      w1 = set_conn c (record (w.conns c) { once = running }) w

      same : w1.conns c ≡ record (w.conns c) { once = running }
      same = rw (==_refl c) refl

      body : (close_body c w1).0 ≡ blocked
      body =
          ap (λ (p : Result (Unit {0}) × Board A). p.0)
            (close_body_lem c a w1 (rw same e) (rw same f))
          ∙ by_kind (w1.conns c).clean_session
        where
          by_kind :
              (clean : Bool)
              → (bind (leave_session c clean (some a) w1) (λ _. end_conn c (w1.conns c))).0
                ≡ blocked
          by_kind true =
              end_conn-blocked c a (w1.conns c)
                (record w1 { sessions = group_remove ((w1.sessions.heap a).client_id) w1.sessions })
                (rw same f) l
          by_kind false =
              bind-blocked (drain c w1) (λ _. end_conn c (w1.conns c)) (drain-blocked c w1)

      by_once : (x : Once) → (w.conns c).once ≡ x → (close c w).0 ≡ blocked
      by_once fresh p =
          ap (λ (p : Result (Unit {0}) × Board A). p.0) (close_fresh c w p)
          ∙ bind-blocked (close_body c w1) (λ _. change_conn c (λ k. record k { once = over })) body
      by_once running p = unfold close in rw p refl
      by_once over p = absurd (o p)

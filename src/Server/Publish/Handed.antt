-- ===== src/Server/Publish/Handed.antt =====
-- One subscriber more among those that a publication in server/conBroker.go is handed to.
use magic_mqtt.Prelude.{
  ℕ, suc, ◌≡◌, refl, sym, ap, ◌∙◌, Bool, true, false, Bool-cases, inl, inr, none, some, [], ◌∷◌,
  append-nil, append_assoc, replicate, ==_iff, ◌==◌,
}
use magic_mqtt.Message.{Message}
use magic_mqtt.Sessions.Session.{Session, push_offline_message}
use magic_mqtt.Sessions.Session.Offline.{push_all}
use magic_mqtt.Common.MessageTable.{update}
use magic_mqtt.Topics.Value.{Value}
use magic_mqtt.Topics.Subscription.{Subs}
use magic_mqtt.Sessions.Group.{group_get}
use magic_mqtt.Server.State.{Board, Conn}
use magic_mqtt.Server.Action.{Result, done, bind, for_each, set_conn, set_session}
use magic_mqtt.Server.Publish.{distribute}
use magic_mqtt.Server.Publish.Delivery.{
  count, more_in, names, conn_of, offline_of, session_of, writer_of, unless_some, sent_to, kept_in,
  writer_of-push,
}

pub more_in_zero : (msg : Message) (k : Conn) → more_in 0 msg k ≡ k
more_in_zero msg k = rw (append-nil k.queue) refl

more_in_more :
    (n : ℕ) (msg : Message) (k : Conn) → more_in n msg (more_in 1 msg k) ≡ more_in (suc n) msg k
more_in_more n msg k = rw (append_assoc k.queue (msg ∷ []) (replicate n msg)) refl

pub count-true :
    (f : Value → Bool) (v : Value) (q : ℕ) (es : Subs)
    → f v ≡ true
    → count f ((v, q) ∷ es) ≡ suc (count f es)
unfolding count
count-true f v q es e = rw e refl

pub count-false :
    (f : Value → Bool) (v : Value) (q : ℕ) (es : Subs)
    → f v ≡ false
    → count f ((v, q) ∷ es) ≡ count f es
unfolding count
count-false f v q es e = rw e refl

push_all-suc :
    (n : ℕ) (msg : Message) (s : Session ℕ)
    → push_all (replicate (suc n) msg) s ≡ push_all (replicate n msg) (push_offline_message msg s).1
unfolding push_all
push_all-suc n msg s = refl

module _ {A : Type 0} where
  -- What a result has of a message for some subscribers, beside the state that it came from.
  abbrev pub HandedOut : Message → Subs → Board A → Result (Unit {0}) × Board A → Type 0
  HandedOut msg es w r =
      (r.0 ≡ done tt)
      × ((c : ℕ) → r.1.conns c ≡ more_in (count (sent_to w c) es) msg (w.conns c))
      × ((a : ℕ)
          → r.1.sessions.heap a
            ≡ push_all (replicate (count (kept_in w a) es) msg) (w.sessions.heap a))
      × (r.1.sessions.ss ≡ w.sessions.ss)
      × (r.1.topics ≡ w.topics)
      × (r.1.locked ≡ w.locked)

  pub for_each_cons :
      (msg : Message) (v : Value) (q : ℕ) (es : Subs) (w : Board A)
      → for_each (λ (e : Value × ℕ). distribute msg e.0) ((v, q) ∷ es) w
        ≡ bind (distribute msg v w) (λ _. for_each (λ (e : Value × ℕ). distribute msg e.0) es)
  unfolding for_each
  for_each_cons msg v q es w = refl

  -- A subscriber whose session writes to the connection `d`.
  pub handed_sent :
      (msg : Message) (v : Value) (q : ℕ) (es : Subs) (a d : ℕ) (w : Board A)
      (r : Result (Unit {0}) × Board A)
      → session_of w v ≡ some a
      → writer_of w a ≡ some d
      → HandedOut msg es (set_conn d (more_in 1 msg (w.conns d)) w) r
      → HandedOut msg ((v, q) ∷ es) w r
  handed_sent msg v q es a d w r e f (fine, conns, heap, ss, topics, locked) =
      (fine, λ c. conns c ∙ sent c, λ b. heap b ∙ kept b, ss, topics, locked)
    where
      sent :
          (c : ℕ)
          → more_in (count (sent_to w c) es) msg (update w.conns d (more_in 1 msg (w.conns d)) c)
            ≡ more_in (count (sent_to w c) ((v, q) ∷ es)) msg (w.conns c)
      sent c = elim (Bool-cases (d == c)) [
        | inl t ↦
            rw (t, (==_iff d c).0 t, count-true (sent_to w c) v q es (to c ∙ t))
              (more_in_more (count (sent_to w c) es) msg (w.conns c))
        | inr t ↦ rw (t, count-false (sent_to w c) v q es (to c ∙ t)) refl
      ]
        where
          to : (c : ℕ) → sent_to w c v ≡ (d == c)
          to c = ap (λ s. names (conn_of (writer_of w) s) c) e ∙ ap (λ s. names s c) f

      kept :
          (b : ℕ)
          → push_all (replicate (count (kept_in w b) es) msg) (w.sessions.heap b)
            ≡ push_all (replicate (count (kept_in w b) ((v, q) ∷ es)) msg) (w.sessions.heap b)
      kept b =
          ap (λ n. push_all (replicate n msg) (w.sessions.heap b))
            (sym (
              count-false (kept_in w b) v q es (
                ap (λ s. names (offline_of (writer_of w) s) b) e
                ∙ ap (λ s. names (unless_some a s) b) f)))

  -- One whose session writes to none.
  pub handed_kept :
      (msg : Message) (v : Value) (q : ℕ) (es : Subs) (a : ℕ) (w : Board A)
      (r : Result (Unit {0}) × Board A)
      → session_of w v ≡ some a
      → writer_of w a ≡ none
      → HandedOut msg es (set_session a (push_offline_message msg (w.sessions.heap a)).1 w) r
      → HandedOut msg ((v, q) ∷ es) w r
  unfolding group_get
  handed_kept msg v q es a w r e f (fine, conns, heap, ss, topics, locked) =
      (fine, λ c. conns c ∙ sent c, λ b. heap b ∙ kept b, ss, topics, locked)
    where
      w' : Board A
      w' = set_session a (push_offline_message msg (w.sessions.heap a)).1 w

      same : writer_of w' ≡ writer_of w
      same = writer_of-push a msg w

      sent :
          (c : ℕ)
          → more_in (count (sent_to w' c) es) msg (w.conns c)
            ≡ more_in (count (sent_to w c) ((v, q) ∷ es)) msg (w.conns c)
      sent c =
          ap (λ n. more_in n msg (w.conns c))
            (ap (λ g. count (λ u. names (conn_of g (session_of w u)) c) es) same
              ∙ sym (
                  count-false (sent_to w c) v q es
                    (ap (λ s. names (conn_of (writer_of w) s) c) e ∙ ap (λ s. names s c) f)))

      kept :
          (b : ℕ)
          → push_all (replicate (count (kept_in w' b) es) msg) (w'.sessions.heap b)
            ≡ push_all (replicate (count (kept_in w b) ((v, q) ∷ es)) msg) (w.sessions.heap b)
      kept b =
          ap
            (λ g.
              push_all (replicate (count (λ u. names (offline_of g (session_of w u)) b) es) msg)
                (w'.sessions.heap b))
            same
          ∙ by_test
        where
          to : kept_in w b v ≡ (a == b)
          to =
              ap (λ s. names (offline_of (writer_of w) s) b) e
              ∙ ap (λ s. names (unless_some a s) b) f

          by_test :
              push_all (replicate (count (kept_in w b) es) msg) (w'.sessions.heap b)
              ≡ push_all (replicate (count (kept_in w b) ((v, q) ∷ es)) msg) (w.sessions.heap b)
          by_test = elim (Bool-cases (a == b)) [
            | inl t ↦
                rw (t, (==_iff a b).0 t, count-true (kept_in w b) v q es (to ∙ t))
                  (sym (push_all-suc (count (kept_in w b) es) msg (w.sessions.heap b)))
            | inr t ↦ rw (t, count-false (kept_in w b) v q es (to ∙ t)) refl
          ]

  -- One without a session.
  pub handed_none :
      (msg : Message) (v : Value) (q : ℕ) (es : Subs) (w : Board A)
      (r : Result (Unit {0}) × Board A)
      → session_of w v ≡ none
      → HandedOut msg es w r
      → HandedOut msg ((v, q) ∷ es) w r
  handed_none msg v q es w r e (fine, conns, heap, ss, topics, locked) = (
    fine,
    λ c.
        conns c
        ∙ ap (λ n. more_in n msg (w.conns c))
            (sym
              (count-false (sent_to w c) v q es (ap (λ s. names (conn_of (writer_of w) s) c) e))),
    λ b.
        heap b
        ∙ ap (λ n. push_all (replicate n msg) (w.sessions.heap b))
            (sym (
              count-false (kept_in w b) v q es (ap (λ s. names (offline_of (writer_of w) s) b) e))),
    ss,
    topics,
    locked,
  )

-- ===== src/Server/Sound/Closing.antt =====
-- The end of a connection in server/conBroker.go under the rules.
use magic_mqtt.Prelude.{
  ℕ, refl, Bool, true, false, Option, none, some, List, [], ◌∷◌, if◌then◌else◌,
}
use magic_mqtt.Message.{Message}
use magic_mqtt.Topics.Value.{pointer}
use magic_mqtt.Topics.Memory.{unsubscribe}
use magic_mqtt.Topics.Memory.Calls
use magic_mqtt.Sessions.Session.{
  push_offline_message, with_on_disconnect, with_on_write, do_disconnect,
}
use magic_mqtt.Sessions.Session.Offline
use magic_mqtt.Sessions.Group.{group_remove}
use magic_mqtt.Sessions.Group.Own
use magic_mqtt.Server.State.{Conn, Once, fresh, running, over}
use magic_mqtt.Server.Action.{
  Action, pure, blocks, modify, ◌>>◌, on_session, update_session, set_lock,
}
use magic_mqtt.Server.Close.{
  is_dropped, keep_offline, drain, drain_next, drain_turn, leave_session, unsubscribe_one,
  stop_writing, forget_session, close_body, close_once, close, leave_quietly, on_disconnect,
  terminate, under_lock, disconnect_session,
}
use magic_mqtt.Server.Sound.Publishing.{Keeps-send_will}
use magic_mqtt.Server.Sound.{
  Keeps, Keeps-bind, Keeps-pure, Keeps-panics, Keeps-blocks, Keeps-if, Keeps-on_session,
  Keeps-update_session, Keeps-topics, Keeps-look, Keeps-aside, keeps_rules,
}

module _ {A : Type 0} where
  pub Keeps-keep_offline : (a : ℕ) (msg : Message) → Keeps (keep_offline {A = A} a msg)
  unfolding keep_offline
  Keeps-keep_offline a msg =
      Keeps-if (is_dropped msg) (pure tt) (on_session a (push_offline_message msg) >> pure tt)
        (Keeps-pure tt)
        (Keeps-bind (on_session a (push_offline_message msg)) (λ _. pure tt)
          (Keeps-on_session a (push_offline_message msg) (λ s r. Offline.pushed r msg))
          (λ _. Keeps-pure tt))

  Keeps-drain : (c : ℕ) → Keeps (drain {A = A} c)
  unfolding drain
  Keeps-drain c = search keeps_rules

  Keeps-drain_next :
      (c : ℕ) (k : Conn) (a : Option ℕ) (ms : List Message) → Keeps (drain_next {A = A} c k a ms)
  Keeps-drain_next c k a [] = Keeps-pure tt
  Keeps-drain_next c k none (m ∷ ms) = Keeps-panics
  Keeps-drain_next c k (some a) (m ∷ ms) = search (keeps_rules, Keeps-keep_offline)

  pub Keeps-drain_turn : (c : ℕ) → Keeps (drain_turn {A = A} c)
  unfolding drain_turn
  Keeps-drain_turn c = search (keeps_rules, Keeps-drain_next)

  Keeps-leave_session :
      (c : ℕ) (clean : Bool) (a : Option ℕ) → Keeps (leave_session {A = A} c clean a)
  Keeps-leave_session c clean none = Keeps-pure tt
  Keeps-leave_session c true (some a) = record {
    at = λ w s. record {
      topics_reached = s.topics_reached;
      sessions_reached = Own.removed s.sessions_reached ((w.sessions.heap a).client_id);
      each_reached = unfold group_remove in s.each_reached;
    };
  }
  Keeps-leave_session c false (some a) = Keeps-drain c

  pub Keeps-unsubscribe_one : (e : List ℕ × ℕ) → Keeps (unsubscribe_one {A = A} e)
  unfolding unsubscribe_one
  Keeps-unsubscribe_one e =
      Keeps-topics (λ w. (unsubscribe w.topics ((w.subs e.1).topic) (pointer e.1)).1)
        (λ w r. Calls.after_unsubscribe r ((w.subs e.1).topic) (pointer e.1))

  Keeps-stop_writing : (c : ℕ) → Keeps (stop_writing {A = A} c)
  unfolding stop_writing
  Keeps-stop_writing c = search keeps_rules

  pub Keeps-without_on_disconnect :
      (a : ℕ) → Keeps (update_session {A = A} a (with_on_disconnect none))
  Keeps-without_on_disconnect a =
      Keeps-update_session a (with_on_disconnect none) (λ s r. Offline.on_disconnect_set r none)

  Keeps-without_on_write : (a : ℕ) → Keeps (update_session {A = A} a (with_on_write none))
  Keeps-without_on_write a =
      Keeps-update_session a (with_on_write none) (λ s r. Offline.on_write_set r none)

  Keeps-forget_session : (c : ℕ) (a : Option ℕ) → Keeps (forget_session {A = A} c a)
  Keeps-forget_session c none = Keeps-pure tt
  Keeps-forget_session c (some a) =
      search (keeps_rules, Keeps-without_on_disconnect, Keeps-without_on_write)

  Keeps-close_body : (c : ℕ) → Keeps (close_body {A = A} c)
  unfolding close_body
  Keeps-close_body c =
      search
        (
          keeps_rules, Keeps-send_will, Keeps-leave_session, Keeps-stop_writing,
          Keeps-unsubscribe_one, Keeps-forget_session,
        )
        depth 12

  pub Keeps-close : (c : ℕ) → Keeps (close {A = A} c)
  unfolding close
  Keeps-close c = Keeps-look (λ w. close_once c (w.conns c).once) (λ w. by_once (w.conns c).once)
    where
      by_once : (o : Once) → Keeps (close_once {A = A} c o)
      by_once over = Keeps-pure tt
      by_once running = Keeps-blocks
      by_once fresh = search (keeps_rules, Keeps-close_body)

  Keeps-leave_quietly : (c : ℕ) (a : Option ℕ) → Keeps (leave_quietly {A = A} c a)
  Keeps-leave_quietly c none = Keeps-pure tt
  Keeps-leave_quietly c (some a) = search (keeps_rules, Keeps-without_on_disconnect)

  pub Keeps-on_disconnect : (c : ℕ) → Keeps (on_disconnect {A = A} c)
  unfolding on_disconnect
  Keeps-on_disconnect c = search (keeps_rules, Keeps-leave_quietly, Keeps-close)

  Keeps-terminate : (c : Option ℕ) → Keeps (terminate {A = A} c)
  Keeps-terminate none = Keeps-pure tt
  Keeps-terminate (some c) = Keeps-close c

  Keeps-set_lock : (a : ℕ) (b : Bool) → Keeps (modify {A = A} (set_lock a b))
  Keeps-set_lock a b = Keeps-aside (set_lock a b) (λ w. refl) (λ w. refl)

  Keeps-under_lock : (a : ℕ) (m : Action A (Unit {0})) → Keeps m → Keeps (under_lock a m)
  Keeps-under_lock a m k =
      Keeps-look
        (λ w.
          if w.locked a
          then blocks
          else (do modify (set_lock a true); m; modify (set_lock a false)))
        (λ w.
          Keeps-if (w.locked a) blocks (do modify (set_lock a true); m; modify (set_lock a false))
            Keeps-blocks
            (Keeps-bind (modify (set_lock a true)) (λ _. m >> modify (set_lock a false))
              (Keeps-set_lock a true)
              (λ _. Keeps-bind m (λ _. modify (set_lock a false)) k (λ _. Keeps-set_lock a false))))

  pub Keeps-disconnect_session : (a : ℕ) → Keeps (disconnect_session {A = A} a)
  unfolding disconnect_session
  Keeps-disconnect_session a =
      Keeps-look (λ w. under_lock a (terminate (do_disconnect (w.sessions.heap a))))
        (λ w.
          Keeps-under_lock a (terminate (do_disconnect (w.sessions.heap a)))
            (Keeps-terminate (do_disconnect (w.sessions.heap a))))

-- ===== src/Server/Publish/Exact.antt =====
-- What `SendPublishMessage` of server/conBroker.go hands out for the subscribers that it finds.
use magic_mqtt.Prelude.{
  ℕ, ◌≡◌, refl, sym, ap, subst, ◌∙◌, Option, none, some, [], ◌∷◌, ◌%◌, suc, length, length-append,
  arith,
}
use magic_mqtt.Message.{Message, publish}
use magic_mqtt.Packet.Publish.{Publish}
use magic_mqtt.Sessions.Session.{push_offline_message}
use magic_mqtt.Sessions.Session.Offline.{push_all}
use magic_mqtt.Topics.Level.{ok}
use magic_mqtt.Topics.Value.{Value}
use magic_mqtt.Topics.Subscription.{Subs}
use magic_mqtt.Topics.Memory.{subscribers}
use magic_mqtt.Server.State.{Board}
use magic_mqtt.Server.Action.{Result, done, bind, for_each, set_conn, set_session}
use magic_mqtt.Server.Publish.{distribute, send_publish_message}
use magic_mqtt.Server.Publish.Delivery.{
  count, more_in, session_of, writer_of, IsLive, distribute-none, distribute-some,
  session_write_sent, session_write_kept, set_conn-IsLive, push-IsLive, weaken-IsLive,
}
use magic_mqtt.Server.Publish.Handed.{
  HandedOut, for_each_cons, more_in_zero, handed_sent, handed_kept, handed_none,
}

module _ {A : Type 0} where
  hand_out :
      (msg : Message) (es : Subs) (w : Board A)
      → IsLive (length es) w
      → HandedOut msg es w (for_each (λ (e : Value × ℕ). distribute msg e.0) es w)
  hand_out msg [] w live =
      unfold for_each push_all count in
      (refl, λ c. sym (more_in_zero msg (w.conns c)), λ a. refl, refl, refl, refl)
  hand_out msg ((v, q) ∷ es) w live = by_session (λ u l. hand_out msg es u l) (session_of w v) refl
    where
      run : Result (Unit {0}) × Board A → Result (Unit {0}) × Board A
      run p = bind p (λ _. for_each (λ (e : Value × ℕ). distribute msg e.0) es)

      result : Result (Unit {0}) × Board A
      result = for_each (λ (e : Value × ℕ). distribute msg e.0) ((v, q) ∷ es) w

      to : (p : Result (Unit {0}) × Board A) → distribute msg v w ≡ p → run p ≡ result
      to p e = ap run (sym e) ∙ sym (for_each_cons msg v q es w)

      by_writer :
          ((u : Board A)
            → IsLive (length es) u
            → HandedOut msg es u (for_each (λ (e : Value × ℕ). distribute msg e.0) es u))
          → (a : ℕ) (d : Option ℕ) → session_of w v ≡ some a
          → writer_of w a ≡ d
          → HandedOut msg ((v, q) ∷ es) w result
      by_writer ih a (some d) e f =
          subst (HandedOut msg ((v, q) ∷ es) w)
            (to (done tt, set_conn d (more_in 1 msg (w.conns d)) w)
              (distribute-some msg v a w e ∙ session_write_sent a d (length es) msg w live f))
            (handed_sent msg v q es a d w (run (done tt, set_conn d (more_in 1 msg (w.conns d)) w))
              e f
              (ih (set_conn d (more_in 1 msg (w.conns d)) w) (
                set_conn-IsLive (suc (length es)) (length es) d (more_in 1 msg (w.conns d)) w refl
                  refl (omega arith)
                  (let len = length-append (w.conns d).queue (msg ∷ []) in omega arith) live)))
      by_writer ih a none e f =
          subst (HandedOut msg ((v, q) ∷ es) w)
            (to (done tt, set_session a (push_offline_message msg (w.sessions.heap a)).1 w)
              (distribute-some msg v a w e
                ∙ session_write_kept a (length es) msg w (weaken-IsLive (length es) w live) f))
            (handed_kept msg v q es a w
              (run (done tt, set_session a (push_offline_message msg (w.sessions.heap a)).1 w)) e f
              (ih (set_session a (push_offline_message msg (w.sessions.heap a)).1 w)
                (push-IsLive a (length es) msg w (weaken-IsLive (length es) w live))))

      by_session :
          ((u : Board A)
            → IsLive (length es) u
            → HandedOut msg es u (for_each (λ (e : Value × ℕ). distribute msg e.0) es u))
          → (a : Option ℕ) → session_of w v ≡ a
          → HandedOut msg ((v, q) ∷ es) w result
      by_session ih none e =
          subst (HandedOut msg ((v, q) ∷ es) w) (to (done tt, w) (distribute-none msg v w e)) (
            handed_none msg v q es w (run (done tt, w)) e (ih w (weaken-IsLive (length es) w live)))
      by_session ih (some a) e = by_writer ih a (writer_of w a) e refl

  -- In a state where no lock is taken and the queues that sessions write to are open, each with room
  -- for as many messages as `Subscribers` finds entries `es`, `SendPublishMessage` returns: each connection gets the message at
  -- the end of its queue once for each of them whose client has a session that writes to it, each
  -- session without a writer has it pushed to its offline queue once for each of its own, and nothing
  -- else changes of connections, sessions, their locks, the group and the provider.
  pub send_publish_message-HandedOut :
      (msg : Publish) (es : Subs) (w : Board A)
      → IsLive (length es) w
      → subscribers w.topics msg.topic_name (msg.fixed_header.qos_level % 256) ≡ (ok tt, es)
      → HandedOut (publish msg) es w (send_publish_message msg w)
  unfolding send_publish_message
  send_publish_message-HandedOut msg es w live e = rw e (hand_out (publish msg) es w live)

-- ===== src/Server/Sound/Turns.antt =====
-- The goroutines of server/handler.go under the rules, and the states that the broker gets to.
use magic_mqtt.Prelude.{
  ℕ, ◌<◌, ◌≤◌, ◌+◌, ◌≡◌, refl, Bool, true, false, Option, none, some, List, [], ◌∷◌, length, ltb,
}
use magic_mqtt.Encoding.Stream
use magic_mqtt.Packet.Pubrec.{Pubrec}
use magic_mqtt.Packet.Pubrel.{Pubrel}
use magic_mqtt.Packet.Pubcomp.{Pubcomp}
use magic_mqtt.Message.{
  Message, Runtime, connect, publish, disconnect, subscribe, unsubscribe, pingresp, puback, pubrec,
  pubrel, pubcomp, parse,
}
use magic_mqtt.Common.MessageTable.{update}
use magic_mqtt.Topics.Trie.Distinct.{IsDistinct}
use magic_mqtt.Topics.Memory.Calls
use magic_mqtt.Sessions.Session.{unref_message, register_message, push_offline_message}
use magic_mqtt.Sessions.Session.Offline
use magic_mqtt.Sessions.Group.{group_get}
use magic_mqtt.Sessions.Group.Own
use magic_mqtt.Server.State.{Board, Conn, State, new_broker_conn}
use magic_mqtt.Server.Action.{
  Result, done, panic, blocked, pure, gets, modify, on_session, with_session,
}
use magic_mqtt.Server.Close.{drain_turn}
use magic_mqtt.Server.Dispatch.{
  unref_in, on_puback, on_pubrec, on_pubrel, on_pubcomp, on_pingresp, handle, handled,
  parse_message, go_on, read_turn,
}
use magic_mqtt.Server.Writer.{
  numbered_in, written_bytes, keep_for, take_out, take_next, write_turn, kick, handle_connection,
  serve_conn,
}
use magic_mqtt.Server.Step.{
  Event, accepted, read, write, kicked, drained, settle, settle_turn, stop_reading, stop_writer,
  stop_draining, step, Reached, here, next,
}
use magic_mqtt.Server.Sound.Publishing.{Keeps-on_publish}
use magic_mqtt.Server.Sound.Closing.{Keeps-close, Keeps-on_disconnect, Keeps-drain_turn}
use magic_mqtt.Server.Sound.Starting.{Keeps-on_connect}
use magic_mqtt.Server.Sound.Subscribing.{Keeps-on_subscribe, Keeps-on_unsubscribe}
use magic_mqtt.Server.Sound.{
  IsSound, Keeps, Keeps-bind, Keeps-pure, Keeps-panics, Keeps-blocks, Keeps-gets, Keeps-if,
  Keeps-on_session, Keeps-with_session, Keeps-change_session, Keeps-look, Keeps-aside, keeps_rules,
}

module _ {A : Type 0} where
  Keeps-unref_in : (a : Option ℕ) (id : ℕ) → Keeps (unref_in {A = A} a id)
  Keeps-unref_in none id = Keeps-pure tt
  Keeps-unref_in (some a) id =
      Keeps-change_session a (unref_message id) (λ s r. Offline.unreferenced r id)

  Keeps-on_puback : (c id : ℕ) → Keeps (on_puback {A = A} c id)
  unfolding on_puback
  Keeps-on_puback c id = search (keeps_rules, Keeps-unref_in)

  Keeps-on_pubrec : (c : ℕ) (msg : Pubrec) → Keeps (on_pubrec {A = A} c msg)
  unfolding on_pubrec
  Keeps-on_pubrec c msg = search keeps_rules

  Keeps-on_pubrel : (c : ℕ) (msg : Pubrel) → Keeps (on_pubrel {A = A} c msg)
  unfolding on_pubrel
  Keeps-on_pubrel c msg = search (keeps_rules, Keeps-unref_in)

  Keeps-on_pubcomp : (c : ℕ) (msg : Pubcomp) → Keeps (on_pubcomp {A = A} c msg)
  unfolding on_pubcomp
  Keeps-on_pubcomp c msg = search (keeps_rules, Keeps-unref_in)

  Keeps-on_pingresp : (c : ℕ) → Keeps (on_pingresp {A = A} c)
  unfolding on_pingresp
  Keeps-on_pingresp c = search keeps_rules

  Keeps-handle : (c : ℕ) (m : Message) → Keeps (handle {A = A} c m)
  unfolding handle
  Keeps-handle c (publish m) = Keeps-on_publish c m
  Keeps-handle c (puback m) = Keeps-on_puback c m.packet_identifier
  Keeps-handle c (pubrec m) = Keeps-on_pubrec c m
  Keeps-handle c (pubrel m) = Keeps-on_pubrel c m
  Keeps-handle c (pubcomp m) = Keeps-on_pubcomp c m
  Keeps-handle c (subscribe m) = Keeps-on_subscribe c m
  Keeps-handle c (unsubscribe m) = Keeps-on_unsubscribe c m
  Keeps-handle c (connect m) = Keeps-on_connect c m
  Keeps-handle c (disconnect m) = Keeps-on_disconnect c
  Keeps-handle c (pingresp m) = Keeps-on_pingresp c
  Keeps-handle c _ = Keeps-pure tt

  Keeps-handled : (c : ℕ) (p : Stream.Result Message × List ℕ) → Keeps (handled {A = A} c p)
  Keeps-handled c (Stream.ok m, rest) = search (keeps_rules, Keeps-handle)
  Keeps-handled c (Stream.err e, rest) = search keeps_rules
  Keeps-handled c (Stream.panic, rest) = Keeps-panics
  Keeps-handled c (Stream.stuck, rest) = Keeps-blocks

  Keeps-parse_message : (rt : Runtime) (c : ℕ) → Keeps (parse_message {A = A} rt c)
  unfolding parse_message
  Keeps-parse_message rt c =
      Keeps-look (λ w. handled c (parse rt w.deploy.message_size (w.conns c).incoming))
        (λ w. Keeps-handled c (parse rt w.deploy.message_size (w.conns c).incoming))

  Keeps-go_on : (c : ℕ) (good : Bool) (s : State) → Keeps (go_on {A = A} c good s)
  Keeps-go_on c true State.closed = search (keeps_rules, Keeps-close)
  Keeps-go_on c true _ = Keeps-pure true
  Keeps-go_on c false _ = search (keeps_rules, Keeps-close)

  Keeps-read_turn : (rt : Runtime) (c : ℕ) → Keeps (read_turn {A = A} rt c)
  unfolding read_turn
  Keeps-read_turn rt c = search (keeps_rules, Keeps-parse_message, Keeps-go_on)

  Keeps-numbered_in : (a : Option ℕ) (m : Message) → Keeps (numbered_in {A = A} a m)
  Keeps-numbered_in none m = Keeps-pure m
  Keeps-numbered_in (some a) (publish m) =
      Keeps-if (ltb 0 m.fixed_header.qos_level)
        (with_session a (λ s. let (id, m', s') = register_message m s in (publish m', s')))
        (pure (publish m))
        (Keeps-with_session a (λ s. let (id, m', s') = register_message m s in (publish m', s'))
          (λ s r. Offline.registered r m))
        (Keeps-pure (publish m))
  Keeps-numbered_in (some a) m = Keeps-pure m

  Keeps-written_bytes : (c : ℕ) (r : Stream.Result (ℕ × List ℕ)) → Keeps (written_bytes {A = A} c r)
  Keeps-written_bytes c (Stream.ok (n, bytes)) = search keeps_rules
  Keeps-written_bytes c (Stream.err e) = Keeps-pure tt
  Keeps-written_bytes c Stream.panic = Keeps-panics
  Keeps-written_bytes c Stream.stuck = Keeps-blocks

  Keeps-keep_for : (a : Option ℕ) (m : Message) → Keeps (keep_for {A = A} a m)
  Keeps-keep_for none m = Keeps-pure tt
  Keeps-keep_for (some a) m =
      Keeps-bind (on_session a (push_offline_message m)) (λ _. pure tt)
        (Keeps-on_session a (push_offline_message m) (λ s r. Offline.pushed r m))
        (λ _. Keeps-pure tt)

  Keeps-take_out : (c : ℕ) (m : Message) → Keeps (take_out {A = A} c m)
  unfolding take_out
  Keeps-take_out c m =
      search (keeps_rules, Keeps-numbered_in, Keeps-written_bytes, Keeps-keep_for) depth 8

  Keeps-take_next : (c : ℕ) (k : Conn) (ms : List Message) → Keeps (take_next {A = A} c k ms)
  Keeps-take_next c k [] = Keeps-pure tt
  Keeps-take_next c k (m ∷ ms) = search (keeps_rules, Keeps-take_out)

  Keeps-write_turn : (c : ℕ) → Keeps (write_turn {A = A} c)
  unfolding write_turn
  Keeps-write_turn c = search (keeps_rules, Keeps-take_next)

  Keeps-kick : (c : ℕ) → Keeps (kick {A = A} c)
  unfolding kick
  Keeps-kick c = search keeps_rules

  Keeps-handle_connection : (c : ℕ) → Keeps (handle_connection {A = A} c)
  unfolding handle_connection
  Keeps-handle_connection c = search keeps_rules

  Keeps-serve_conn : (incoming : List ℕ) → Keeps (serve_conn {A = A} incoming)
  unfolding serve_conn
  Keeps-serve_conn incoming =
      Keeps-bind (gets (λ w. w.next_conn)) _ (Keeps-gets (λ w. w.next_conn)) (λ c.
        Keeps-bind
          (modify (λ w. record w {
            conns = update w.conns c (new_broker_conn w.deploy incoming);
            next_conn = w.next_conn + 1;
          }))
          (λ _. handle_connection c)
          (Keeps-aside
            (λ w. record w {
              conns = update w.conns c (new_broker_conn w.deploy incoming);
              next_conn = w.next_conn + 1;
            })
            (λ w. refl) (λ w. refl))
          (λ _. Keeps-handle_connection c))

  settle-IsSound : (c : ℕ) (p : Result Bool × Board A) → IsSound p.1 → IsSound (settle c p).1
  settle-IsSound c (done true, w) s = s
  settle-IsSound c (done false, w) s = (Keeps-aside (stop_reading c) (λ v. refl) (λ v. refl)).at w s
  settle-IsSound c (panic, w) s = s
  settle-IsSound c (blocked, w) s = (Keeps-aside (stop_reading c) (λ v. refl) (λ v. refl)).at w s

  settle_turn-IsSound :
      (stop : Board A → Board A) (p : Result (Unit {0}) × Board A)
      → ((v : Board A) → (stop v).topics ≡ v.topics)
      → ((v : Board A) → (stop v).sessions ≡ v.sessions)
      → IsSound p.1
      → IsSound (settle_turn stop p).1
  settle_turn-IsSound stop (done u, w) f g s = s
  settle_turn-IsSound stop (panic, w) f g s = s
  settle_turn-IsSound stop (blocked, w) f g s = (Keeps-aside stop f g).at w s

  step-IsSound : (rt : Runtime) (e : Event) (w : Board A) → IsSound w → IsSound (step rt e w).1
  unfolding step
  step-IsSound rt (accepted incoming) w s = (Keeps-serve_conn incoming).at w s
  step-IsSound rt (read c) w s = settle-IsSound c (read_turn rt c w) ((Keeps-read_turn rt c).at w s)
  step-IsSound rt (write c) w s =
      settle_turn-IsSound (stop_writer c) (write_turn c w) (λ v. refl) (λ v. refl)
        ((Keeps-write_turn c).at w s)
  step-IsSound rt (kicked c) w s =
      settle_turn-IsSound (stop_writer c) (kick c w) (λ v. refl) (λ v. refl) ((Keeps-kick c).at w s)
  step-IsSound rt (drained c) w s =
      settle_turn-IsSound (stop_draining c) (drain_turn c w) (λ v. refl) (λ v. refl)
        ((Keeps-drain_turn c).at w s)

  -- Every state that the broker gets to from one whose provider, group and sessions are in a state
  -- that calls of their own methods lead to is such a state again.
  pub Reached-IsSound : (rt : Runtime) (w v : Board A) → Reached rt w v → IsSound w → IsSound v
  Reached-IsSound rt w _ here s = s
  Reached-IsSound rt w _ (next {v = v} r e can lives) s =
      step-IsSound rt e v (Reached-IsSound rt w v r s)

  -- In every state that the broker gets to from one whose provider, group and sessions are in a state
  -- that calls of their own methods lead to, whatever its clients send and however the goroutines
  -- take turns: no map of the subscription tree holds a level twice, the session of a
  -- client is on the heap, and the offline queue of a session is within its limit.
  pub Reached_bounds :
      (rt : Runtime) (w v : Board A) (client : List ℕ) (a : ℕ)
      → Reached rt w v
      → IsSound w
      → group_get client v.sessions ≡ some a
      → IsDistinct v.topics.sroot
        × (a < v.sessions.next)
        × (length (v.sessions.heap a).offline_queue ≤ (v.sessions.heap a).offline_limit)
  Reached_bounds rt w v client a r s e =
      let now = Reached-IsSound rt w v r s in
      (
        Calls.Reached-IsDistinct v.topics now.topics_reached,
        (Own.group_get_own v.sessions client client a now.sessions_reached e e).0,
        unfold Offline.Bounded in Offline.Reached-Bounded (v.sessions.heap a) (now.each_reached a),
      )

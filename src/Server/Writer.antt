-- ===== src/Server/Writer.antt =====
-- Writing: `HandleConnection` of server/handler.go, its goroutine that writes, and `Kicker`, `Ping`
-- and `write` of server/conBroker.go.
pub mod Start
use magic_mqtt.Prelude.{
  ℕ, Bool, true, false, Option, none, some, List, [], ◌∷◌, ◌++◌, ltb, leb, length, ◌&&◌, not, ◌+◌,
  if◌then◌else◌,
}
use magic_mqtt.Encoding.Stream
use magic_mqtt.Packet.Publish.{Publish}
use magic_mqtt.Packet.Pingreq
use magic_mqtt.Message.{Message, publish, pingreq, write_message_to}
use magic_mqtt.Common.MessageTable.{update}
use magic_mqtt.Sessions.Session.{Session, push_offline_message, register_message}
use magic_mqtt.Server.State.{Board, Conn, State, is_closed, new_broker_conn}
use magic_mqtt.Server.Action.{
  Action, done, pure, panics, blocks, gets, modify, ◌>>=◌, ◌>>◌, get_conn, put_conn, send,
  on_session, with_session,
}
use magic_mqtt.Server.Close.{change_conn}

-- Whether messages are written; else they are kept for the session.
abbrev pub is_open : State → Bool
is_open State.connected = true
is_open State.connecting = true
is_open _ = false

module _ {A : Type 0} where
  -- A PUBLISH above QoS 0 is registered with the session, if there is one, and gets its identifier.
  abbrev pub numbered_in : Option ℕ → Message → Action A Message
  numbered_in (some a) (publish m) =
      if ltb 0 m.fixed_header.qos_level
      then with_session a (λ s. let (id, m', s') = register_message m s in (publish m', s'))
      else pure (publish m)
  numbered_in _ m = pure m

  -- `write`; an error is logged, and the bytes go to the socket at once.
  abbrev pub written_bytes : ℕ → Stream.Result (ℕ × List ℕ) → Action A (Unit {0})
  written_bytes c (Stream.ok (n, bytes)) =
      change_conn c (λ k. record k { outgoing = k.outgoing ++ bytes })
  written_bytes c (Stream.err e) = pure tt
  written_bytes c Stream.panic = panics
  written_bytes c Stream.stuck = blocks

  abbrev pub keep_for : Option ℕ → Message → Action A (Unit {0})
  keep_for none m = pure tt
  keep_for (some a) m = on_session a (push_offline_message m) >> pure tt

  -- What the loop does with a message from the queue.
  unfoldable pub take_out : ℕ → Message → Action A (Unit {0})
  take_out c m = do
    k ← get_conn c
    (if is_open k.state
        then (numbered_in k.session m >>= λ m'. written_bytes c (write_message_to m' []))
        else keep_for k.session m)

  abbrev pub take_next : ℕ → Conn → List Message → Action A (Unit {0})
  take_next c k [] = pure tt
  take_next c k (m ∷ ms) = put_conn c (record k { queue = ms }) >> take_out c m

  -- A turn of the loop of `HandleConnection` that writes, with the case of the queue; where that is
  -- empty the loop waits for another case.
  unfoldable pub write_turn : ℕ → Action A (Unit {0})
  write_turn c = do k ← get_conn c; take_next c k k.queue

  -- `Ping`, by the goroutine that takes messages out of the queue: only the loop of `Close` makes
  -- room in it beside that one.
  abbrev pub ping : ℕ → Conn → Action A (Unit {0})
  ping c k =
      if not k.queue_closed && not k.draining && leb k.capacity (length k.queue)
      then blocks
      else send c (pingreq Pingreq.spawn)

  -- The case of the timer: `Kicker` and `Ping`.
  unfoldable pub kick : ℕ → Action A (Unit {0})
  kick c = do
    k ← get_conn c
    (if ltb 0 k.keepalive && not (is_closed k.state) then ping c k else pure tt)

  -- `HandleConnection`: both goroutines start. The select of the one that writes reads a field of
  -- the timer, which is nil without a keep-alive.
  unfoldable pub handle_connection : ℕ → Action A (Unit {0})
  handle_connection c = do
    k ← get_conn c
    (if k.kicker then put_conn c (record k { reading = true; writing = true }) else panics)

  -- The part of `Serve` of server/tcpBroker.go for a connection that was accepted, with the bytes
  -- that its client is going to send.
  unfoldable pub serve_conn : List ℕ → Action A (Unit {0})
  serve_conn incoming = do
    c ← gets (λ w. w.next_conn)
    modify (λ w. record w {
      conns = update w.conns c (new_broker_conn w.deploy incoming);
      next_conn = w.next_conn + 1;
    })
    handle_connection c

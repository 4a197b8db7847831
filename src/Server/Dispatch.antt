-- ===== src/Server/Dispatch.antt =====
-- Reading: the acknowledgements and `ParseMessage` of server/conBroker.go, and the goroutine of
-- server/handler.go that reads.
pub mod Types
use magic_mqtt.Prelude.{ℕ, ◌+◌, Bool, true, false, Option, none, some, List}
use magic_mqtt.Encoding.Stream
use magic_mqtt.Packet.Pubrel
use magic_mqtt.Packet.Pubcomp
use magic_mqtt.Packet.Pubrec.{Pubrec}
use magic_mqtt.Packet.Pubrel.{Pubrel}
use magic_mqtt.Packet.Pubcomp.{Pubcomp}
use magic_mqtt.Message.{
  Message, Runtime, connect, connack, publish, disconnect, subscribe, suback, unsubscribe, unsuback,
  pingresp, pingreq, puback, pubrec, pubrel, pubcomp, parse,
}
use magic_mqtt.Sessions.Session.{unref_message}
use magic_mqtt.Server.State.{State}
use magic_mqtt.Server.Action.{
  Action, pure, panics, blocks, ◌>>=◌, ◌>>◌, get_conn, send, change_session,
}
use magic_mqtt.Server.Publish.{on_publish}
use magic_mqtt.Server.Close.{change_conn, close, on_disconnect}
use magic_mqtt.Server.Connect.{on_connect}
use magic_mqtt.Server.Subscribe.{on_subscribe, on_unsubscribe}

module _ {A : Type 0} where
  abbrev pub unref_in : Option ℕ → ℕ → Action A (Unit {0})
  unref_in none id = pure tt
  unref_in (some a) id = change_session a (unref_message id)

  -- `onPuback`, and the same lines in `onPubcomp`
  unfoldable pub on_puback : ℕ → ℕ → Action A (Unit {0})
  on_puback c id = do k ← get_conn c; unref_in k.session id

  unfoldable pub on_pubrec : ℕ → Pubrec → Action A (Unit {0})
  on_pubrec c msg =
      send c (pubrel (record Pubrel.spawn { packet_identifier = msg.packet_identifier }))

  unfoldable pub on_pubrel : ℕ → Pubrel → Action A (Unit {0})
  on_pubrel c msg = do
    send c (pubcomp (record Pubcomp.spawn { packet_identifier = msg.packet_identifier }))
    k ← get_conn c
    unref_in k.session msg.packet_identifier

  unfoldable pub on_pubcomp : ℕ → Pubcomp → Action A (Unit {0})
  on_pubcomp c msg = do k ← get_conn c; unref_in k.session msg.packet_identifier

  unfoldable pub on_pingresp : ℕ → Action A (Unit {0})
  on_pingresp c = change_conn c (λ k. record k { ping = k.ping + 1 })

  -- The switch of `ParseMessage`, on a message that `Parse` made, whose header has the type of its
  -- constructor. The four kinds without a handler are logged: a PINGREQ has no answer.
  unfoldable pub handle : ℕ → Message → Action A (Unit {0})
  handle c (publish m) = on_publish c m
  handle c (puback m) = on_puback c m.packet_identifier
  handle c (pubrec m) = on_pubrec c m
  handle c (pubrel m) = on_pubrel c m
  handle c (pubcomp m) = on_pubcomp c m
  handle c (subscribe m) = on_subscribe c m
  handle c (unsubscribe m) = on_unsubscribe c m
  handle c (connect m) = on_connect c m
  handle c (disconnect m) = on_disconnect c
  handle c (pingresp m) = on_pingresp c
  handle c (connack m) = pure tt
  handle c (suback m) = pure tt
  handle c (unsuback m) = pure tt
  handle c (pingreq m) = pure tt

  -- Whether `ParseMessage` answers nil for its error.
  abbrev pub handled : ℕ → Stream.Result Message × List ℕ → Action A Bool
  handled c (Stream.ok m, rest) = do
    change_conn c (λ k. record k { incoming = rest })
    handle c m
    pure true
  handled c (Stream.err e, rest) = do change_conn c (λ k. record k { incoming = rest }); pure false
  handled c (Stream.panic, rest) = panics
  handled c (Stream.stuck, rest) = blocks

  -- `ParseMessage`; the buffer of the reader holds no bytes of another connection, so what is left
  -- of the stream stays with the connection.
  unfoldable pub parse_message : Runtime → ℕ → Action A Bool
  parse_message rt c w = handled c (parse rt w.deploy.message_size (w.conns c).incoming) w

  -- The rest of a turn of the loop that reads: whether it goes on.
  abbrev pub go_on : ℕ → Bool → State → Action A Bool
  go_on c true State.closed = close c >> pure false
  go_on c true _ = pure true
  go_on c false _ = close c >> pure false

  -- A turn of the loop of `HandleConnection` that reads.
  unfoldable pub read_turn : Runtime → ℕ → Action A Bool
  read_turn rt c = do good ← parse_message rt c; k ← get_conn c; go_on c good k.state

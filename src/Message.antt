-- ===== src/Message.antt =====
-- encoding/message/message.go and the functions `Parse` and `WriteMessageTo` of mqtt.go.
pub mod Termination
pub mod RoundTrip
pub mod Empty
pub mod Types
use magic_mqtt.Prelude.{ℕ, zero, Bool, true, false, List, [], ◌&&◌, ltb, leb, ◌==◌, if◌then◌else◌}
use magic_mqtt.Encoding.PType
use magic_mqtt.Encoding.PType.{PType}
use magic_mqtt.Encoding.Stream.{
  Read, Result, ◌>>=◌, ok, err, panic, pure, fail, payload_limit, not_supported,
}
use magic_mqtt.Encoding.Header.{FixedHeader, zero_header, header_decode}
use magic_mqtt.Packet.Connect
use magic_mqtt.Packet.Connect.{Connect}
use magic_mqtt.Packet.Connack
use magic_mqtt.Packet.Connack.{Connack}
use magic_mqtt.Packet.Publish
use magic_mqtt.Packet.Publish.{Publish}
use magic_mqtt.Packet.Disconnect
use magic_mqtt.Packet.Disconnect.{Disconnect}
use magic_mqtt.Packet.Subscribe
use magic_mqtt.Packet.Subscribe.{Subscribe}
use magic_mqtt.Packet.Suback
use magic_mqtt.Packet.Suback.{Suback}
use magic_mqtt.Packet.Unsubscribe
use magic_mqtt.Packet.Unsubscribe.{Unsubscribe}
use magic_mqtt.Packet.Unsuback
use magic_mqtt.Packet.Unsuback.{Unsuback}
use magic_mqtt.Packet.Pingresp
use magic_mqtt.Packet.Pingresp.{Pingresp}
use magic_mqtt.Packet.Pingreq
use magic_mqtt.Packet.Pingreq.{Pingreq}
use magic_mqtt.Packet.Puback
use magic_mqtt.Packet.Puback.{Puback}
use magic_mqtt.Packet.Pubrec
use magic_mqtt.Packet.Pubrec.{Pubrec}
use magic_mqtt.Packet.Pubrel
use magic_mqtt.Packet.Pubrel.{Pubrel}
use magic_mqtt.Packet.Pubcomp
use magic_mqtt.Packet.Pubcomp.{Pubcomp}

-- The values of the interface `Message`: a constructor for each Go type that implements it.
pub data Message : Type 0 where
  connect : Connect → Message
  connack : Connack → Message
  publish : Publish → Message
  disconnect : Disconnect → Message
  subscribe : Subscribe → Message
  suback : Suback → Message
  unsubscribe : Unsubscribe → Message
  unsuback : Unsuback → Message
  pingresp : Pingresp → Message
  pingreq : Pingreq → Message
  puback : Puback → Message
  pubrec : Pubrec → Message
  pubrel : Pubrel → Message
  pubcomp : Pubcomp → Message

abbrev pub fixed_header : Message → FixedHeader
fixed_header (connect m) = m.fixed_header
fixed_header (connack m) = m.fixed_header
fixed_header (publish m) = m.fixed_header
fixed_header (disconnect m) = m.fixed_header
fixed_header (subscribe m) = m.fixed_header
fixed_header (suback m) = m.fixed_header
fixed_header (unsubscribe m) = m.fixed_header
fixed_header (unsuback m) = m.fixed_header
fixed_header (pingresp m) = m.fixed_header
fixed_header (pingreq m) = m.fixed_header
fixed_header (puback m) = m.fixed_header
fixed_header (pubrec m) = m.fixed_header
fixed_header (pubrel m) = m.fixed_header
fixed_header (pubcomp m) = m.fixed_header

-- `GetType`: what the header says, which need not be the Go type of the value.
abbrev pub get_type : Message → PType
get_type m = (fixed_header m).type

-- The packet type that goes with the Go type of a value.
abbrev pub kind : Message → PType
kind (connect m) = PType.connect
kind (connack m) = PType.connack
kind (publish m) = PType.publish
kind (disconnect m) = PType.disconnect
kind (subscribe m) = PType.subscribe
kind (suback m) = PType.suback
kind (unsubscribe m) = PType.unsubscribe
kind (unsuback m) = PType.unsuback
kind (pingresp m) = PType.pingresp
kind (pingreq m) = PType.pingreq
kind (puback m) = PType.puback
kind (pubrec m) = PType.pubrec
kind (pubrel m) = PType.pubrel
kind (pubcomp m) = PType.pubcomp

-- What the source leaves to the runtime: how many bytes a `Read` hands over at each place of the
-- stream, and the spare capacity of the buffer that a CONNECT of each length is copied to.
pub record Runtime : Type 0 where
  pub pace : ℕ → ℕ
  pub slack : ℕ → ℕ

parse_connect : Runtime → FixedHeader → Read Message
parse_connect rt h = do
  m ← Connect.decode (rt.slack h.remaining_length) (Connect.of_header h)
  pure (connect m)

parse_connack : FixedHeader → Read Message
parse_connack h = do
  m ← Connack.decode (record Connack.spawn { fixed_header = h })
  pure (connack m)

parse_publish : Runtime → FixedHeader → Read Message
parse_publish rt h = do
  m ← Publish.decode rt.pace (record Publish.spawn { fixed_header = h })
  pure (publish m)

parse_subscribe : FixedHeader → Read Message
parse_subscribe h = do
  m ← Subscribe.decode (record Subscribe.spawn { fixed_header = h })
  pure (subscribe m)

parse_suback : FixedHeader → Read Message
parse_suback h = do m ← Suback.decode (record Suback.spawn { fixed_header = h }); pure (suback m)

parse_unsubscribe : FixedHeader → Read Message
parse_unsubscribe h = do
  m ← Unsubscribe.decode (record Unsubscribe.spawn { fixed_header = h })
  pure (unsubscribe m)

parse_unsuback : FixedHeader → Read Message
parse_unsuback h = do
  m ← Unsuback.decode (record Unsuback.spawn { fixed_header = h })
  pure (unsuback m)

parse_puback : FixedHeader → Read Message
parse_puback h = do m ← Puback.decode (record Puback.spawn { fixed_header = h }); pure (puback m)

parse_pubrec : FixedHeader → Read Message
parse_pubrec h = do m ← Pubrec.decode (record Pubrec.spawn { fixed_header = h }); pure (pubrec m)

parse_pubrel : FixedHeader → Read Message
parse_pubrel h = do m ← Pubrel.decode (record Pubrel.spawn { fixed_header = h }); pure (pubrel m)

parse_pubcomp : FixedHeader → Read Message
parse_pubcomp h = do
  m ← Pubcomp.decode (record Pubcomp.spawn { fixed_header = h })
  pure (pubcomp m)

-- The switch of `Parse`: a fresh value of the type around the header, and its `decode`.
unfoldable pub parse_body : Runtime → FixedHeader → Read Message
unfolding parse_connect parse_connack parse_publish parse_subscribe parse_suback parse_unsubscribe
    parse_unsuback parse_puback parse_pubrec parse_pubrel parse_pubcomp
parse_body rt h =
    if h.type == PType.connect
    then parse_connect rt h
    else if h.type == PType.connack
    then parse_connack h
    else if h.type == PType.publish
    then parse_publish rt h
    else if h.type == PType.disconnect
    then pure (disconnect (record { fixed_header = h }))
    else if h.type == PType.subscribe
    then parse_subscribe h
    else if h.type == PType.suback
    then parse_suback h
    else if h.type == PType.unsubscribe
    then parse_unsubscribe h
    else if h.type == PType.unsuback
    then parse_unsuback h
    else if h.type == PType.pingresp
    then pure (pingresp (record { fixed_header = h }))
    else if h.type == PType.pingreq
    then pure (pingreq (record { fixed_header = h }))
    else if h.type == PType.puback
    then parse_puback h
    else if h.type == PType.pubrec
    then parse_pubrec h
    else if h.type == PType.pubrel
    then parse_pubrel h
    else if h.type == PType.pubcomp
    then parse_pubcomp h
    else fail not_supported

-- `maxLen` is tested only where it is above 0.
unfoldable pub parse : Runtime → ℕ → Read Message
parse rt max_len = do
  h ← header_decode zero_header
  if ltb 0 max_len && ltb max_len h.remaining_length then fail payload_limit else parse_body rt h

-- `WriteTo` of each type: the count that it answers and the bytes. `Connect.WriteTo` also leaves
-- the flags in its message.
unfoldable pub write_packet : Message → List ℕ → ℕ × List ℕ
write_packet (connect m) w = let (size, m', w') = Connect.write_to m w in (size, w')
write_packet (connack m) w = Connack.write_to m w
write_packet (publish m) w = Publish.write_to m w
write_packet (disconnect m) w = Disconnect.write_to m w
write_packet (subscribe m) w = Subscribe.write_to m w
write_packet (suback m) w = Suback.write_to m w
write_packet (unsubscribe m) w = Unsubscribe.write_to m w
write_packet (unsuback m) w = Unsuback.write_to m w
write_packet (pingresp m) w = Pingresp.write_to m w
write_packet (pingreq m) w = Pingreq.write_to m w
write_packet (puback m) w = Puback.write_to m w
write_packet (pubrec m) w = Pubrec.write_to m w
write_packet (pubrel m) w = Pubrel.write_to m w
write_packet (pubcomp m) w = Pubcomp.write_to m w

-- `WriteMessageTo` goes by `GetType`, and its type assertion panics where the value is of another
-- type than its header says.
unfoldable pub write_message_to : Message → List ℕ → Result (ℕ × List ℕ)
write_message_to m w =
    if leb PType.connect (get_type m) && leb (get_type m) PType.disconnect
    then if kind m == get_type m then ok (write_packet m w) else panic
    else err not_supported

-- ===== src/Packet/Unsubscribe.antt =====
-- encoding/message/unsubscribe.go, with `SpawnUnsubscribeMessage` of mqtt.go.
pub mod Requests
use magic_mqtt.Prelude.{
  ℕ, zero, suc, ◌+◌, ◌-◌, ◌%◌, List, [], ◌∷◌, ◌++◌, length, ltb, if◌then◌else◌,
}
use magic_mqtt.Encoding.PType
use magic_mqtt.Encoding.Stream.{Read, ◌>>=◌, pure, out_of_fuel, read_u16, copy_n, write_u16}
use magic_mqtt.Encoding.Header.{FixedHeader, of_type, header_write_to}
use magic_mqtt.Packet.Subscribe.{SubscribePayload}

pub record Unsubscribe : Type 0 where
  pub fixed_header : FixedHeader
  pub topic_name : List ℕ
  pub packet_identifier : ℕ
  pub payload : List SubscribePayload

abbrev pub spawn : Unsubscribe
spawn = record {
  fixed_header = of_type PType.unsubscribe 1;
  topic_name = [];
  packet_identifier = 0;
  payload = [];
}

unfoldable pub payload_size : List SubscribePayload → ℕ
payload_size [] = 0
payload_size (p ∷ ps) = 2 + length p.topic_path % 65536 + payload_size ps

unfoldable pub write_payload : List SubscribePayload → List ℕ → List ℕ
write_payload [] w = w
write_payload (p ∷ ps) w =
    write_payload ps (write_u16 (length p.topic_path % 65536) w ++ p.topic_path)

unfoldable pub write_to : Unsubscribe → List ℕ → ℕ × List ℕ
write_to m w =
    let total = 2 + payload_size m.payload in
    let (header_len, w') = header_write_to m.fixed_header total w in
    (total + (total + header_len), write_payload m.payload (write_u16 m.packet_identifier w'))

-- The loop of `decode` with its fuel. A round takes `length + 1 + 2` off `remaining`, as where a
-- QoS byte follows the topic, and reads only `length + 2` bytes.
unfoldable pub payload_loop : ℕ → ℕ → List SubscribePayload → Read (List SubscribePayload)
payload_loop zero remaining payload = if ltb 0 remaining then out_of_fuel else pure payload
payload_loop (suc fuel) remaining payload =
    let next = (do
      size ← read_u16 0
      topic ← copy_n size
      let m : SubscribePayload = record { topic_path = topic; requested_qos = 0 }
      payload_loop fuel (remaining - (size + 1 + 2)) (payload ++ m ∷ [])) in
    if ltb 0 remaining then next else pure payload

unfoldable pub decode : Unsubscribe → Read Unsubscribe
decode m = do
  id ← read_u16 m.packet_identifier
  let remaining = m.fixed_header.remaining_length - 2
  payload ← payload_loop remaining remaining m.payload
  pure (record m { packet_identifier = id; payload = payload })

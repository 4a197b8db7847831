-- ===== src/Packet/Subscribe.antt =====
-- encoding/message/subscribe.go, with `SpawnSubscribeMessage` of mqtt.go.
pub mod RoundTrip
use magic_mqtt.Prelude.{
  ℕ, zero, suc, ◌+◌, ◌-◌, ◌%◌, List, [], ◌∷◌, ◌++◌, length, ltb, if◌then◌else◌,
}
use magic_mqtt.Encoding.PType
use magic_mqtt.Encoding.Stream.{
  Read, ◌>>=◌, pure, out_of_fuel, read_u8, read_u16, copy_n, write_u8, write_u16,
}
use magic_mqtt.Encoding.Header.{FixedHeader, of_type, header_write_to}

pub record SubscribePayload : Type 0 where
  pub topic_path : List ℕ
  pub requested_qos : ℕ

pub record Subscribe : Type 0 where
  pub fixed_header : FixedHeader
  pub packet_identifier : ℕ
  pub payload : List SubscribePayload

abbrev pub spawn : Subscribe
spawn = record { fixed_header = of_type PType.subscribe 1; packet_identifier = 0; payload = [] }

-- The first loop of `WriteTo`: the length that it adds up, with lengths cut to a uint16.
unfoldable pub payload_size : List SubscribePayload → ℕ
payload_size [] = 0
payload_size (p ∷ ps) = 2 + length p.topic_path % 65536 + 1 + payload_size ps

-- The second loop.
unfoldable pub write_payload : List SubscribePayload → List ℕ → List ℕ
write_payload [] w = w
write_payload (p ∷ ps) w =
    write_payload ps
      (write_u8 p.requested_qos (write_u16 (length p.topic_path % 65536) w ++ p.topic_path))

-- The count that it answers has the total twice: `total += total + int(headerLen)`.
unfoldable pub write_to : Subscribe → List ℕ → ℕ × List ℕ
write_to m w =
    let total = 2 + payload_size m.payload in
    let (header_len, w') = header_write_to m.fixed_header total w in
    (total + (total + header_len), write_payload m.payload (write_u16 m.packet_identifier w'))

-- The loop of `decode` with its fuel. `remaining` is only tested against 0, where the difference
-- that stops at 0 is as good as the negative int.
unfoldable pub payload_loop : ℕ → ℕ → List SubscribePayload → Read (List SubscribePayload)
payload_loop zero remaining payload = if ltb 0 remaining then out_of_fuel else pure payload
payload_loop (suc fuel) remaining payload =
    let next = (do
      size ← read_u16 0
      topic ← copy_n size
      qos ← read_u8 0
      let m : SubscribePayload = record { topic_path = topic; requested_qos = qos }
      payload_loop fuel (remaining - (size + 1 + 2)) (payload ++ m ∷ [])) in
    if ltb 0 remaining then next else pure payload

-- Each round takes three off `remaining` at least.
unfoldable pub decode : Subscribe → Read Subscribe
decode m = do
  id ← read_u16 m.packet_identifier
  let remaining = m.fixed_header.remaining_length - 2
  payload ← payload_loop remaining remaining m.payload
  pure (record m { packet_identifier = id; payload = payload })

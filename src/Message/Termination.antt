-- ===== src/Message/Termination.antt =====
-- The fuel of the decoders that `Parse` of encoding/message/mqtt.go calls.
use magic_mqtt.Prelude.{
  ℕ, zero, suc, ◌+◌, ◌-◌, ◌%◌, ◌≤◌, ◌<◌, ◌≡◌, ◌≢◌, ltb→lt, leb→le, List, [], length, ltb, leb,
  arith,
}
use magic_mqtt.Prelude.{Option}
use magic_mqtt.Encoding.Stream.Ends.{
  Ends, Ends-pure, Ends-if, Ends-bind, Ends-fail, Ends-read_u16, ends_rules,
}
use magic_mqtt.Encoding.Stream.{stuck, crupted_data}
use magic_mqtt.Encoding.Varint.{read_loop, read_varint}
use magic_mqtt.Encoding.Header.{FixedHeader, header_decode}
use magic_mqtt.Packet.Connect
use magic_mqtt.Packet.Connack
use magic_mqtt.Packet.Puback
use magic_mqtt.Packet.Pubrec
use magic_mqtt.Packet.Pubrel
use magic_mqtt.Packet.Pubcomp
use magic_mqtt.Packet.Unsuback
use magic_mqtt.Packet.Suback
use magic_mqtt.Packet.Suback.{Suback}
use magic_mqtt.Packet.Unsubscribe.{Unsubscribe}
use magic_mqtt.Packet.Publish.{Publish}
use magic_mqtt.Packet.Subscribe
use magic_mqtt.Packet.Subscribe.{SubscribePayload, Subscribe}
use magic_mqtt.Packet.Unsubscribe
use magic_mqtt.Packet.Publish
use magic_mqtt.Packet.Publish.Fill.{fill_takes, fill_ends}
use magic_mqtt.Packet.Connect.{Connect}
use native.Mathlib.Decide.{dec_lt}
use magic_mqtt.Message.{Runtime, parse_body, parse}

Ends-read_loop : (k old m v : ℕ) → Ends (read_loop k old m v)
unfolding read_loop
Ends-read_loop zero old m v = Ends-pure v
Ends-read_loop (suc k) old m v = search (ends_rules, Ends-read_loop k)

Ends-subscribe_loop :
    (fuel remaining : ℕ) (acc : List SubscribePayload)
    → remaining ≤ fuel
    → Ends (Subscribe.payload_loop fuel remaining acc)
unfolding Subscribe.payload_loop
Ends-subscribe_loop zero remaining acc h =
    let done : remaining ≡ 0 = omega arith in rw done (Ends-pure acc)
Ends-subscribe_loop (suc fuel) remaining acc h =
    Ends-if (ltb 0 remaining) _ _
      (λ more.
        let next = λ (size : ℕ) (acc' : List SubscribePayload).
          Ends-subscribe_loop fuel (remaining - (size + 1 + 2)) acc'
            (omega (arith, ltb→lt 0 remaining more)) in
        search (ends_rules, next))
      (λ _. Ends-pure acc)

Ends-unsubscribe_loop :
    (fuel remaining : ℕ) (acc : List SubscribePayload)
    → remaining ≤ fuel
    → Ends (Unsubscribe.payload_loop fuel remaining acc)
unfolding Unsubscribe.payload_loop
Ends-unsubscribe_loop zero remaining acc h =
    let done : remaining ≡ 0 = omega arith in rw done (Ends-pure acc)
Ends-unsubscribe_loop (suc fuel) remaining acc h =
    Ends-if (ltb 0 remaining) _ _
      (λ more.
        let next = λ (size : ℕ) (acc' : List SubscribePayload).
          Ends-unsubscribe_loop fuel (remaining - (size + 1 + 2)) acc'
            (omega (arith, ltb→lt 0 remaining more)) in
        search (ends_rules, next))
      (λ _. Ends-pure acc)

-- `i` passes the uint8 `remaining` after 257 rounds at the latest.
Ends-qos_loop :
    (fuel i remaining : ℕ) (buffer : List ℕ)
    → 257 ≤ fuel + i
    → i ≤ 256
    → remaining < 256
    → Ends (Suback.qos_loop fuel i remaining buffer)
unfolding Suback.qos_loop
Ends-qos_loop zero i remaining buffer h k l = absurd (omega arith)
Ends-qos_loop (suc fuel) i remaining buffer h k l =
    Ends-if (leb i remaining) _ _
      (λ more.
        let next = λ (buffer' : List ℕ).
          Ends-qos_loop fuel (i + 1) ((remaining + 256 - 1) % 256) buffer' (omega arith)
            (omega (arith, leb→le i remaining more)) (omega arith) in
        search (ends_rules, next))
      (λ _. Ends-pure buffer)

Ends-fill :
    (pace : ℕ → ℕ) (fuel wanted : ℕ) (buffer : List ℕ)
    → wanted ≤ fuel
    → Ends (Publish.fill pace fuel wanted buffer)
Ends-fill pace fuel wanted buffer h = record {
  at = λ r. elim (dec_lt (length r) wanted) [
    | yes p ↦ rw (fill_ends pace fuel wanted buffer r h p) (λ e. cc)
    | no p ↦ rw (fill_takes pace fuel wanted buffer r h (omega arith)) (λ e. cc)
  ];
}

Ends-slice : (slack : ℕ) (buffer : List ℕ) (lo hi : ℕ) → Ends (Connect.slice slack buffer lo hi)
unfolding Connect.slice
Ends-slice slack buffer lo hi = search ends_rules

Ends-from_offset : (buffer : List ℕ) (offset : ℕ) → Ends (Connect.from_offset buffer offset)
unfolding Connect.from_offset
Ends-from_offset buffer offset = search ends_rules

ruleset connect_rules = (ends_rules, Ends-slice, Ends-from_offset)

Ends-read_text :
    (slack : ℕ) (buffer : List ℕ) (size offset : ℕ)
    → Ends (Connect.read_text slack buffer size offset)
unfolding Connect.read_text
Ends-read_text slack buffer size offset = search connect_rules

Ends-decode_will :
    (slack : ℕ) (buffer : List ℕ) (flag size offset : ℕ) (old : Option Connect.Will)
    → Ends (Connect.decode_will slack buffer flag size offset old)
unfolding Connect.decode_will
Ends-decode_will slack buffer flag size offset old = search (connect_rules, Ends-read_text)

Ends-decode_login :
    (slack : ℕ) (buffer : List ℕ) (flag size offset : ℕ) (m : Connect)
    → Ends (Connect.decode_login slack buffer flag size offset m)
unfolding Connect.decode_login
Ends-decode_login slack buffer flag size offset m = search (connect_rules, Ends-read_text)

Ends-decode_rest :
    (slack : ℕ) (buffer : List ℕ) (size offset : ℕ) (m : Connect)
    → Ends (Connect.decode_rest slack buffer size offset m)
unfolding Connect.decode_rest
Ends-decode_rest slack buffer size offset m =
    search (connect_rules, Ends-decode_will, Ends-decode_login)

Ends-connect : (slack : ℕ) (m : Connect) → Ends (Connect.decode slack m)
unfolding Connect.decode
Ends-connect slack m = search (connect_rules, Ends-decode_rest)

Ends-header_decode : (h : FixedHeader) → Ends (header_decode h)
unfolding header_decode read_varint
Ends-header_decode h = search (ends_rules, Ends-read_loop)

Ends-publish : (pace : ℕ → ℕ) (m : Publish) → Ends (Publish.decode pace m)
unfolding Publish.decode Publish.decode_buffer
Ends-publish pace m =
    let n = m.fixed_header.remaining_length - 2 in
    Ends-bind _ _ (Ends-read_u16 0) λ size.
      Ends-if (ltb n 1) _ _ (λ _. Ends-fail crupted_data)
        (λ _. Ends-bind _ _ (Ends-fill pace n n [] (omega arith)) λ buffer. search ends_rules)

Ends-subscribe : (m : Subscribe) → Ends (Subscribe.decode m)
unfolding Subscribe.decode
Ends-subscribe m =
    let n = m.fixed_header.remaining_length - 2 in
    Ends-bind _ _ (Ends-read_u16 m.packet_identifier)
      λ id. Ends-bind _ _ (Ends-subscribe_loop n n m.payload (omega arith)) λ payload. Ends-pure _

Ends-unsubscribe : (m : Unsubscribe) → Ends (Unsubscribe.decode m)
unfolding Unsubscribe.decode
Ends-unsubscribe m =
    let n = m.fixed_header.remaining_length - 2 in
    Ends-bind _ _ (Ends-read_u16 m.packet_identifier)
      λ id. Ends-bind _ _ (Ends-unsubscribe_loop n n m.payload (omega arith)) λ payload. Ends-pure _

Ends-suback : (m : Suback) → Ends (Suback.decode m)
unfolding Suback.decode
Ends-suback m =
    let n = (m.fixed_header.remaining_length % 256 + 256 - 2) % 256 in
    Ends-bind _ _ (Ends-read_u16 m.packet_identifier) λ id.
      Ends-bind _ _ (Ends-qos_loop 257 0 n [] (omega arith) (omega arith) (omega arith))
        λ payload. Ends-pure _

ruleset packet_rules =
    (ends_rules, Ends-connect, Ends-publish, Ends-subscribe, Ends-unsubscribe, Ends-suback)

Ends-parse_body : (rt : Runtime) (h : FixedHeader) → Ends (parse_body rt h)
unfolding parse_body Connack.decode Puback.decode Pubrec.decode Pubrel.decode Pubcomp.decode
    Unsuback.decode
Ends-parse_body rt h = search packet_rules depth 40

Ends-parse : (rt : Runtime) (max_len : ℕ) → Ends (parse rt max_len)
unfolding parse
Ends-parse rt max_len = search (ends_rules, Ends-header_decode, Ends-parse_body)

-- `Parse` ends on every stream, whatever the limit and the runtime: with a message, an error or a
-- panic.
pub parse-ne-stuck : (rt : Runtime) (max_len : ℕ) (r : List ℕ) → (parse rt max_len r).0 ≢ stuck
parse-ne-stuck rt max_len r = (Ends-parse rt max_len).at r

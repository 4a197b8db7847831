-- ===== src/Message/Empty.antt =====
-- PINGREQ, PINGRESP and DISCONNECT, which have no body, in encoding/message/mqtt.go.
use magic_mqtt.Prelude.{ℕ, ◌<◌, ◌≡◌, ◌∙◌, List, [], ◌∷◌, ◌++◌}
use magic_mqtt.Encoding.PType
use magic_mqtt.Encoding.Stream.{ok, read_byte}
use magic_mqtt.Encoding.Varint.RoundTrip.{read_varint_one, write_varint_zero}
use magic_mqtt.Encoding.Header.{
  FixedHeader, zero_header, first_byte, header_write_to, header_decode,
}
use magic_mqtt.Encoding.Header.RoundTrip.{IsHeader, decode_first-first_byte}
use magic_mqtt.Packet.Pingreq
use magic_mqtt.Packet.Pingresp
use magic_mqtt.Packet.Disconnect
use magic_mqtt.Message.{
  Message, pingreq, pingresp, disconnect, fixed_header, kind, Runtime, parse_body, parse,
  write_packet, write_message_to,
}
use magic_mqtt.Message.RoundTrip.{Allows, Allows-test, with_length, write_message_to-kind}

-- The messages with no body, with a header of their own type.
abbrev pub IsEmpty : Message → Type 0
IsEmpty (pingreq m) = IsHeader m.fixed_header × (m.fixed_header.type ≡ PType.pingreq)
IsEmpty (pingresp m) = IsHeader m.fixed_header × (m.fixed_header.type ≡ PType.pingresp)
IsEmpty (disconnect m) = IsHeader m.fixed_header × (m.fixed_header.type ≡ PType.disconnect)
IsEmpty _ = ⊥

header_write_to_zero :
    (h : FixedHeader) (w : List ℕ)
    → (header_write_to h 0 w).1 ≡ w ++ first_byte h.type h.dupe h.qos_level h.retain ∷ []
unfolding header_write_to
header_write_to_zero h w = rw write_varint_zero

header_decode_one :
    (h : FixedHeader) (b : ℕ) (rest : List ℕ)
    → IsHeader h
    → b < 128
    → header_decode zero_header (first_byte h.type h.dupe h.qos_level h.retain ∷ b ∷ rest)
      ≡ (ok (record h { remaining_length = b }), rest)
unfolding header_decode read_byte
header_decode_one h b rest v l = rw (read_varint_one b rest l) (
    rw (
      decode_first-first_byte h.dupe h.retain h.qos_level h.type v.retain_fits v.qos_fits
        v.type_fits))

parse_one :
    (rt : Runtime) (max_len : ℕ) (h : FixedHeader) (b : ℕ) (rest : List ℕ)
    → IsHeader h
    → b < 128
    → Allows max_len b
    → parse rt max_len ((header_write_to h 0 []).1 ++ b ∷ rest)
      ≡ parse_body rt (record h { remaining_length = b }) rest
unfolding parse
parse_one rt max_len h b rest v l a =
    rw (header_write_to_zero h [])
      (rw (header_decode_one h b rest v l) (rw (Allows-test max_len b a)))

-- `WriteMessageTo` succeeds on a PINGREQ, PINGRESP or DISCONNECT with a header of its own type
-- whose fields fit, and writes one byte, the first of the header, with no byte for the remaining
-- length behind it.
pub write_message_to_empty :
    (m : Message) (w : List ℕ)
    → IsEmpty m
    → (write_message_to m w ≡ ok (write_packet m w))
      × ((write_packet m w).1
          ≡ w
            ++ first_byte
                (kind m)
                (fixed_header m).dupe
                (fixed_header m).qos_level
                (fixed_header m).retain
              ∷ [])
unfolding write_packet
write_message_to_empty (pingreq m) w (v, t) =
    (write_message_to-kind (pingreq m) w t, unfold Pingreq.write_to in rw (header_write_to_zero, t))
write_message_to_empty (pingresp m) w (v, t) = (
  write_message_to-kind (pingresp m) w t,
  unfold Pingresp.write_to in rw (header_write_to_zero, t),
)
write_message_to_empty (disconnect m) w (v, t) = (
  write_message_to-kind (disconnect m) w t,
  unfold Disconnect.write_to in rw (header_write_to_zero, t),
)
write_message_to_empty _ w h = absurd h

-- Reading a PINGREQ, PINGRESP or DISCONNECT that was written, with a header of its own type whose
-- fields fit, `Parse` takes the byte behind it, one below 128 and within the limit, for its
-- remaining length, and goes on behind that byte.
parse_empty :
    (rt : Runtime) (max_len : ℕ) (m : Message) (b : ℕ) (rest : List ℕ)
    → IsEmpty m
    → b < 128
    → Allows max_len b
    → parse rt max_len ((write_packet m []).1 ++ b ∷ rest) ≡ (ok (with_length b m), rest)
unfolding write_packet
parse_empty rt max_len (pingreq m) b rest (v, t) l a =
    unfold Pingreq.write_to in
    parse_one rt max_len m.fixed_header b rest v l a ∙ unfold parse_body in rw t
parse_empty rt max_len (pingresp m) b rest (v, t) l a =
    unfold Pingresp.write_to in
    parse_one rt max_len m.fixed_header b rest v l a ∙ unfold parse_body in rw t
parse_empty rt max_len (disconnect m) b rest (v, t) l a =
    unfold Disconnect.write_to in
    parse_one rt max_len m.fixed_header b rest v l a ∙ unfold parse_body in rw t
parse_empty rt max_len _ b rest h l a = absurd h

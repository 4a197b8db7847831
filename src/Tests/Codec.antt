-- ===== src/Tests/Codec.antt =====
-- The theorems on the packet code of encoding/ at concrete packets.
use magic_mqtt.Prelude.{◌≡◌, ◌≢◌, refl, inl, inr, true, false, [], ◌∷◌, ◌++◌, arith}
use magic_mqtt.Encoding.PType
use magic_mqtt.Encoding.Stream.{ok, err, panic, stuck, varint_overflow}
use magic_mqtt.Encoding.Varint.{read_varint, write_varint}
use magic_mqtt.Encoding.Varint.RoundTrip.{read_varint-write_varint, read_varint_four}
use magic_mqtt.Encoding.Header.{FixedHeader, of_type, first_byte}
use magic_mqtt.Encoding.Header.RoundTrip.{IsHeader}
use magic_mqtt.Packet.Publish.{Publish}
use magic_mqtt.Packet.Publish
use magic_mqtt.Packet.Publish.RoundTrip.{content, decode_panics}
use magic_mqtt.Packet.Subscribe.{Subscribe, SubscribePayload, payload_size}
use magic_mqtt.Packet.Subscribe
use magic_mqtt.Packet.Suback.{Suback}
use magic_mqtt.Packet.Suback
use magic_mqtt.Packet.Suback.Codes.{decode_codes}
use magic_mqtt.Packet.Unsubscribe.{Unsubscribe}
use magic_mqtt.Packet.Unsubscribe
use magic_mqtt.Packet.Unsubscribe.Requests.{decode_requests, wire, topic_only}
use magic_mqtt.Packet.Puback
use magic_mqtt.Packet.Puback.{Puback}
use magic_mqtt.Packet.Pingreq
use magic_mqtt.Message.{
  Message, publish, subscribe, puback, pingreq, Runtime, parse, write_packet, write_message_to,
}
use magic_mqtt.Message.RoundTrip.{
  with_length, parse-write_ack, parse-write_publish, parse-write_subscribe,
}
use magic_mqtt.Message.Empty.{write_message_to_empty}
use magic_mqtt.Message.Termination.{parse-ne-stuck}

read_varint-write_varint_example :
    read_varint ((write_varint 300 []).1 ++ 7 ∷ []) ≡ (ok 300, 7 ∷ [])
read_varint-write_varint_example = read_varint-write_varint 300 (7 ∷ []) (omega arith) (omega arith)

read_varint_four_example :
    read_varint ((write_varint 0x20_0000 []).1 ++ 7 ∷ []) ≡ (err varint_overflow, 7 ∷ [])
read_varint_four_example = read_varint_four 0x20_0000 (7 ∷ []) (omega arith) (omega arith)

abbrev header : FixedHeader
header = record {
  type = PType.publish;
  dupe = true;
  qos_level = 1;
  retain = 1;
  remaining_length = 0;
}

header-IsHeader : IsHeader header
header-IsHeader = record {
  type_fits = omega arith;
  qos_fits = omega arith;
  retain_fits = omega arith;
}

abbrev pub runtime : Runtime
runtime = record { pace = λ n. 1; slack = λ n. 0 }

abbrev publication : Publish
publication = record {
  fixed_header = header;
  topic_name = b'a' ∷ b'/' ∷ b'b' ∷ [];
  packet_identifier = 700;
  payload = 1 ∷ 2 ∷ [];
}

parse-write_publish_example :
    (write_message_to (publish publication) [] ≡ ok (write_packet (publish publication) []))
    × (parse runtime 0 ((write_packet (publish publication) []).1 ++ 9 ∷ [])
        ≡ (ok (with_length 9 (publish publication)), 9 ∷ []))
unfolding content
parse-write_publish_example =
    parse-write_publish runtime 0 publication (9 ∷ []) header-IsHeader refl (omega arith)
      (omega arith) (omega arith) (inl refl)

abbrev pub request : SubscribePayload
request = record { topic_path = b'a' ∷ b'/' ∷ b'#' ∷ []; requested_qos = 1 }

abbrev pub subscription : Subscribe
subscription = record (Subscribe.spawn) { packet_identifier = 5; payload = request ∷ [] }

pub spawned-IsHeader : IsHeader (of_type PType.subscribe 1)
spawned-IsHeader = record {
  type_fits = omega arith;
  qos_fits = omega arith;
  retain_fits = omega arith;
}

parse-write_subscribe_example :
    (write_message_to (subscribe subscription) [] ≡ ok (write_packet (subscribe subscription) []))
    × (parse runtime 100 ((write_packet (subscribe subscription) []).1 ++ 9 ∷ [])
        ≡ (ok (with_length 8 (subscribe subscription)), 9 ∷ []))
unfolding payload_size
parse-write_subscribe_example =
    parse-write_subscribe runtime 100 subscription (9 ∷ []) spawned-IsHeader refl (omega arith, tt)
      (omega arith) (inr (omega arith))

abbrev answer : Message
answer = puback (record (Puback.spawn) { packet_identifier = 77 })

parse-write_ack_example :
    (write_message_to answer [] ≡ ok (write_packet answer []))
    × (parse runtime 0 ((write_packet answer []).1 ++ 9 ∷ []) ≡ (ok (with_length 2 answer), 9 ∷ []))
parse-write_ack_example =
    parse-write_ack runtime 0 answer (9 ∷ [])
      (record { type_fits = omega arith; qos_fits = omega arith; retain_fits = omega arith }, refl)
      (inl refl)

abbrev ping : Message
ping = pingreq Pingreq.spawn

write_message_to_empty_example :
    (write_message_to ping (3 ∷ []) ≡ ok (write_packet ping (3 ∷ [])))
    × ((write_packet ping (3 ∷ [])).1 ≡ 3 ∷ first_byte PType.pingreq false 0 0 ∷ [])
write_message_to_empty_example =
    write_message_to_empty ping (3 ∷ [])
      (record { type_fits = omega arith; qos_fits = omega arith; retain_fits = omega arith }, refl)

parse-ne-stuck_example : (parse runtime 0 (0x30 ∷ 3 ∷ 0 ∷ 1 ∷ b'a' ∷ [])).0 ≢ stuck
parse-ne-stuck_example = parse-ne-stuck runtime 0 (0x30 ∷ 3 ∷ 0 ∷ 1 ∷ b'a' ∷ [])

abbrev cut_short : Publish
cut_short = record (Publish.spawn) { fixed_header = record header { remaining_length = 4 } }

decode_panics_example :
    Publish.decode (λ n. 1) cut_short (0 ∷ 1 ∷ b'a' ∷ 0 ∷ 9 ∷ []) ≡ (panic, 9 ∷ [])
decode_panics_example =
    decode_panics (λ n. 1) cut_short 0 1 2 (b'a' ∷ 0 ∷ 9 ∷ []) (omega arith) refl (omega arith)
      (omega arith) (omega arith) (omega arith) (omega arith)

abbrev grants : Suback
grants = record (Suback.spawn) { fixed_header = record header { remaining_length = 5 } }

decode_codes_example :
    Suback.decode grants (0 ∷ 7 ∷ 1 ∷ 2 ∷ 0 ∷ [])
    ≡ (ok (record grants { packet_identifier = 7; qos = 1 ∷ 2 ∷ [] }), 0 ∷ [])
decode_codes_example =
    decode_codes grants 0 7 3 (1 ∷ 2 ∷ 0 ∷ []) refl (omega arith) (omega arith) (omega arith)

abbrev withdrawal : Unsubscribe
withdrawal = record (Unsubscribe.spawn) { fixed_header = record header { remaining_length = 8 } }

decode_requests_example :
    Unsubscribe.decode withdrawal (0 ∷ 7 ∷ 0 ∷ 3 ∷ b'a' ∷ b'/' ∷ b'#' ∷ 0 ∷ [])
    ≡ (ok (record withdrawal { packet_identifier = 7; payload = topic_only request ∷ [] }), 0 ∷ [])
unfolding wire payload_size Unsubscribe.payload_size
decode_requests_example =
    decode_requests withdrawal 7 1 (request ∷ []) (0 ∷ []) refl (omega arith, tt) (omega arith, tt)
      (omega arith)

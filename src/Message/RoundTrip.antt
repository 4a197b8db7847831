-- ===== src/Message/RoundTrip.antt =====
-- `Parse` on what `WriteMessageTo` wrote, both of encoding/message/mqtt.go.
use magic_mqtt.Prelude.{
  ℕ, ◌+◌, ◌≤◌, ◌<◌, ◌≡◌, ◌∙◌, ◌⊎◌, inl, inr, true, false, ◌&&◌, refl, List, [], ◌++◌, All, length,
  append_assoc, ltb, leb, ==_refl, if◌then◌else◌, arith,
}
use magic_mqtt.Encoding.PType
use magic_mqtt.Encoding.Stream.{ok, read_u16_pair}
use magic_mqtt.Encoding.Header.{FixedHeader, header_write_to}
use magic_mqtt.Encoding.Header.RoundTrip.{IsHeader, header_decode-header_write_to}
use magic_mqtt.Packet.Puback
use magic_mqtt.Packet.Pubrec
use magic_mqtt.Packet.Pubrel
use magic_mqtt.Packet.Pubcomp
use magic_mqtt.Packet.Unsuback
use magic_mqtt.Packet.Publish
use magic_mqtt.Packet.Publish.{Publish}
use magic_mqtt.Packet.Publish.RoundTrip.{content, write_to-content, decode-content}
use magic_mqtt.Packet.Subscribe
use magic_mqtt.Packet.Subscribe.{Subscribe, payload_size}
use magic_mqtt.Packet.Subscribe.RoundTrip.{IsShort, write_to-body, decode-body}
use magic_mqtt.Message.{
  Message, puback, pubrec, pubrel, pubcomp, unsuback, publish, subscribe, connect, connack, suback,
  unsubscribe, pingreq, pingresp, disconnect, get_type, kind, Runtime, parse_body, parse,
  parse_puback, parse_pubrec, parse_pubrel, parse_pubcomp, parse_unsuback, parse_publish,
  parse_subscribe, write_packet, write_message_to,
}

-- A limit that lets a packet of `n` bytes behind its header pass.
abbrev pub Allows : ℕ → ℕ → Type 0
Allows max_len n = (max_len ≡ 0) ⊎ (n ≤ max_len)

pub Allows-test : (max_len n : ℕ) → Allows max_len n → (ltb 0 max_len && ltb max_len n) ≡ false
Allows-test max_len n (inl e) = ground arith
Allows-test max_len n (inr h) = ground arith

-- Behind a header that `writeTo` wrote, `Parse` goes on with the body.
pub parse-header :
    (rt : Runtime) (max_len : ℕ) (h : FixedHeader) (n : ℕ) (r : List ℕ)
    → IsHeader h
    → 0 < n
    → n < 0x20_0000
    → Allows max_len n
    → parse rt max_len ((header_write_to h n []).1 ++ r)
      ≡ parse_body rt (record h { remaining_length = n }) r
unfolding parse
parse-header rt max_len h n r v l m a =
    rw (header_decode-header_write_to h n r v l m) (rw (Allows-test max_len n a))

-- The messages that hold an identifier and nothing else, with a header of their own type.
abbrev pub IsAck : Message → Type 0
IsAck (puback m) = IsHeader m.fixed_header × (m.fixed_header.type ≡ PType.puback)
IsAck (pubrec m) = IsHeader m.fixed_header × (m.fixed_header.type ≡ PType.pubrec)
IsAck (pubrel m) = IsHeader m.fixed_header × (m.fixed_header.type ≡ PType.pubrel)
IsAck (pubcomp m) = IsHeader m.fixed_header × (m.fixed_header.type ≡ PType.pubcomp)
IsAck (unsuback m) = IsHeader m.fixed_header × (m.fixed_header.type ≡ PType.unsuback)
IsAck _ = ⊥

-- The message with the remaining length that the reader fills in.
abbrev pub with_length : ℕ → Message → Message
with_length n (puback m) =
    puback (record m { fixed_header = record (m.fixed_header) { remaining_length = n } })
with_length n (pubrec m) =
    pubrec (record m { fixed_header = record (m.fixed_header) { remaining_length = n } })
with_length n (pubrel m) =
    pubrel (record m { fixed_header = record (m.fixed_header) { remaining_length = n } })
with_length n (pubcomp m) =
    pubcomp (record m { fixed_header = record (m.fixed_header) { remaining_length = n } })
with_length n (unsuback m) =
    unsuback (record m { fixed_header = record (m.fixed_header) { remaining_length = n } })
with_length n (subscribe m) =
    subscribe (record m { fixed_header = record (m.fixed_header) { remaining_length = n } })
with_length n (publish m) =
    publish (record m { fixed_header = record (m.fixed_header) { remaining_length = n } })
with_length n (connect m) =
    connect (record m { fixed_header = record (m.fixed_header) { remaining_length = n } })
with_length n (connack m) =
    connack (record m { fixed_header = record (m.fixed_header) { remaining_length = n } })
with_length n (suback m) =
    suback (record m { fixed_header = record (m.fixed_header) { remaining_length = n } })
with_length n (unsubscribe m) =
    unsubscribe (record m { fixed_header = record (m.fixed_header) { remaining_length = n } })
with_length n (pingreq m) =
    pingreq (record m { fixed_header = record (m.fixed_header) { remaining_length = n } })
with_length n (pingresp m) =
    pingresp (record m { fixed_header = record (m.fixed_header) { remaining_length = n } })
with_length n (disconnect m) =
    disconnect (record m { fixed_header = record (m.fixed_header) { remaining_length = n } })

kind_fits : (m : Message) → (leb PType.connect (kind m) && leb (kind m) PType.disconnect) ≡ true
kind_fits (puback m) = refl
kind_fits _ = refl

-- `WriteMessageTo` writes a message whose header names its own type.
pub write_message_to-kind :
    (m : Message) (w : List ℕ) → get_type m ≡ kind m → write_message_to m w ≡ ok (write_packet m w)
unfolding write_message_to
write_message_to-kind m w e = rw e (rw (kind_fits m) (rw (==_refl (kind m))))

-- The branches of the switch.
module _ (rt : Runtime) (h : FixedHeader) (r : List ℕ) where
  body_puback : h.type ≡ PType.puback → parse_body rt h r ≡ parse_puback h r
  unfolding parse_body
  body_puback e = rw e

  body_pubrec : h.type ≡ PType.pubrec → parse_body rt h r ≡ parse_pubrec h r
  unfolding parse_body
  body_pubrec e = rw e

  body_pubrel : h.type ≡ PType.pubrel → parse_body rt h r ≡ parse_pubrel h r
  unfolding parse_body
  body_pubrel e = rw e

  body_pubcomp : h.type ≡ PType.pubcomp → parse_body rt h r ≡ parse_pubcomp h r
  unfolding parse_body
  body_pubcomp e = rw e

  body_unsuback : h.type ≡ PType.unsuback → parse_body rt h r ≡ parse_unsuback h r
  unfolding parse_body
  body_unsuback e = rw e

  body_publish : h.type ≡ PType.publish → parse_body rt h r ≡ parse_publish rt h r
  unfolding parse_body
  body_publish e = rw e

  body_subscribe : h.type ≡ PType.subscribe → parse_body rt h r ≡ parse_subscribe h r
  unfolding parse_body
  body_subscribe e = rw e

-- Writing a PUBACK, PUBREC, PUBREL, PUBCOMP or UNSUBACK, with a header of its own type whose fields
-- fit, and parsing it within the limit gives it back, with 2 as its remaining length, and leaves
-- what follows.
pub parse-write_ack :
    (rt : Runtime) (max_len : ℕ) (m : Message) (rest : List ℕ)
    → IsAck m
    → Allows max_len 2
    → (write_message_to m [] ≡ ok (write_packet m []))
      × (parse rt max_len ((write_packet m []).1 ++ rest) ≡ (ok (with_length 2 m), rest))
unfolding write_packet
parse-write_ack rt max_len (puback m) rest (v, t) a = (
  write_message_to-kind (puback m) [] t,
  unfold Puback.write_to in
      rw append_assoc (
        parse-header rt max_len m.fixed_header 2 _ v (omega arith) (omega arith) a
        ∙ body_puback rt _ _ t
        ∙ unfold parse_puback Puback.decode in rw read_u16_pair),
)
parse-write_ack rt max_len (pubrec m) rest (v, t) a = (
  write_message_to-kind (pubrec m) [] t,
  unfold Pubrec.write_to in
      rw append_assoc (
        parse-header rt max_len m.fixed_header 2 _ v (omega arith) (omega arith) a
        ∙ body_pubrec rt _ _ t
        ∙ unfold parse_pubrec Pubrec.decode in rw read_u16_pair),
)
parse-write_ack rt max_len (pubrel m) rest (v, t) a = (
  write_message_to-kind (pubrel m) [] t,
  unfold Pubrel.write_to in
      rw append_assoc (
        parse-header rt max_len m.fixed_header 2 _ v (omega arith) (omega arith) a
        ∙ body_pubrel rt _ _ t
        ∙ unfold parse_pubrel Pubrel.decode in rw read_u16_pair),
)
parse-write_ack rt max_len (pubcomp m) rest (v, t) a = (
  write_message_to-kind (pubcomp m) [] t,
  unfold Pubcomp.write_to in
      rw append_assoc (
        parse-header rt max_len m.fixed_header 2 _ v (omega arith) (omega arith) a
        ∙ body_pubcomp rt _ _ t
        ∙ unfold parse_pubcomp Pubcomp.decode in rw read_u16_pair),
)
parse-write_ack rt max_len (unsuback m) rest (v, t) a = (
  write_message_to-kind (unsuback m) [] t,
  unfold Unsuback.write_to in
      rw append_assoc (
        parse-header rt max_len m.fixed_header 2 _ v (omega arith) (omega arith) a
        ∙ body_unsuback rt _ _ t
        ∙ unfold parse_unsuback Unsuback.decode in rw read_u16_pair),
)
parse-write_ack rt max_len _ rest h a = absurd h

-- Writing a PUBLISH, with a header of its type whose fields fit, and parsing it gives it back, with
-- its remaining length filled in and, at QoS 0, the identifier 0; what follows is left. The topic
-- is shorter than 2^16 - 2 bytes, something stands behind the topic's length, and the whole is
-- below 2^21 bytes and within the limit. The pace of the connection does not matter.
pub parse-write_publish :
    (rt : Runtime) (max_len : ℕ) (m : Publish) (rest : List ℕ)
    → IsHeader m.fixed_header
    → m.fixed_header.type ≡ PType.publish
    → length m.topic_name + 2 < 65536
    → 1 ≤ length (content m)
    → 2 + length (content m) < 0x20_0000
    → Allows max_len (2 + length (content m))
    → (write_message_to (publish m) [] ≡ ok (write_packet (publish m) []))
      × (parse rt max_len ((write_packet (publish m) []).1 ++ rest) ≡ (
        ok (
            with_length (2 + length (content m)) (
              publish (record m {
                packet_identifier =
                    if ltb 0 m.fixed_header.qos_level then m.packet_identifier else 0;
              }))),
        rest,
      ))
unfolding write_packet
parse-write_publish rt max_len m rest v t k lo hi a = (
  write_message_to-kind (publish m) [] t,
  rw (write_to-content m [] (omega arith), append_assoc)
      (parse-header rt max_len m.fixed_header (2 + length (content m)) _ v (omega arith) hi a
        ∙ body_publish rt _ _ t
        ∙ unfold parse_publish in
          rw (
            decode-content rt.pace
              (record Publish.spawn {
                fixed_header = record (m.fixed_header) {
                  remaining_length = 2 + length (content m);
                };
              })
              m rest refl refl lo k)),
)

-- Writing a SUBSCRIBE, with a header of its type whose fields fit, and parsing it gives it back,
-- with its remaining length filled in, and leaves what follows. Every topic is below 2^16 bytes,
-- and the whole below 2^21 and within the limit.
pub parse-write_subscribe :
    (rt : Runtime) (max_len : ℕ) (m : Subscribe) (rest : List ℕ)
    → IsHeader m.fixed_header
    → m.fixed_header.type ≡ PType.subscribe
    → All IsShort m.payload
    → 2 + payload_size m.payload < 0x20_0000
    → Allows max_len (2 + payload_size m.payload)
    → (write_message_to (subscribe m) [] ≡ ok (write_packet (subscribe m) []))
      × (parse rt max_len ((write_packet (subscribe m) []).1 ++ rest)
          ≡ (ok (with_length (2 + payload_size m.payload) (subscribe m)), rest))
unfolding write_packet
parse-write_subscribe rt max_len m rest v t s hi a = (
  write_message_to-kind (subscribe m) [] t,
  rw (write_to-body m [] s, append_assoc)
      (parse-header rt max_len m.fixed_header (2 + payload_size m.payload) _ v (omega arith) hi a
        ∙ body_subscribe rt _ _ t
        ∙ unfold parse_subscribe in
          rw (
            decode-body
              (record Subscribe.spawn {
                fixed_header = record (m.fixed_header) {
                  remaining_length = 2 + payload_size m.payload;
                };
              })
              m rest refl s)),
)

-- ===== src/Packet/Publish/RoundTrip.antt =====
-- `Publish.decode` on a stream that holds the whole packet, and on what `Publish.WriteTo` wrote.
use native.Mathlib.Nat.{le_trans, le-add_right}
use magic_mqtt.Prelude.{
  ℕ, ◌+◌, ◌-◌, ◌*◌, ◌/◌, ◌%◌, ◌≤◌, ◌<◌, ◌≡◌, ◌∙◌, List, [], ◌∷◌, ◌++◌, length, take, drop,
  length-append, length-take, ltb-true, ltb-false, take-append, drop-append, drop-append_add,
  append_assoc, ltb, if◌then◌else◌, arith,
}
use magic_mqtt.Prelude.{Bool-cases, inl, inr, ltb→lt}
use magic_mqtt.Encoding.Stream.{ok, panic, read_u16, u16_at, u16_at_pair}
use magic_mqtt.Encoding.Header.{header_write_to}
use magic_mqtt.Packet.Publish.{Publish, decode_buffer, decode, write_to}
use magic_mqtt.Packet.Publish.Fill.{fill_takes}

-- With the packet at hand `decode` is `decode_buffer` on the bytes behind the topic's length.
pub decode_whole :
    (pace : ℕ → ℕ) (m : Publish) (b c n : ℕ) (r : List ℕ)
    → m.fixed_header.remaining_length ≡ 2 + n
    → 1 ≤ n
    → n ≤ length r
    → decode pace m (b ∷ c ∷ r) ≡ decode_buffer m (b * 256 + c) (take n r) (drop n r)
unfolding decode read_u16 u16_at
decode_whole pace m b c n r e h k =
    let d : m.fixed_header.remaining_length - 2 ≡ n = omega arith in
    rw d (rw (ltb-false n 1 h) (rw (fill_takes pace n n [] r (omega arith) k)))

-- The three outcomes of `decode_buffer` on a topic length within the buffer.
pub decode_buffer_plain :
    (m : Publish) (size : ℕ) (buffer r : List ℕ)
    → m.fixed_header.qos_level ≡ 0
    → size ≤ length buffer
    → decode_buffer m size buffer r
      ≡ (ok (record m { topic_name = take size buffer; payload = drop size buffer }), r)
unfolding decode_buffer
decode_buffer_plain m size buffer r e h =
    rw (ltb-false _ _ h)
      (rw (ltb-false 0 m.fixed_header.qos_level (omega arith)) (rw (ltb-false _ _ h)))

pub decode_buffer_ident :
    (m : Publish) (size : ℕ) (buffer r : List ℕ)
    → 0 < m.fixed_header.qos_level
    → size + 2 ≤ length buffer
    → size + 2 < 65536
    → decode_buffer m size buffer r ≡ (
      ok (record m {
        topic_name = take size buffer;
        packet_identifier = u16_at m.packet_identifier (drop size buffer);
        payload = drop (size + 2) buffer;
      }),
      r,
    )
unfolding decode_buffer
decode_buffer_ident m size buffer r q h k =
    let small : (size + 2) % 65536 ≡ size + 2 = omega arith in
    rw (ltb-false _ _ (le_trans (le-add_right size 2) h))
      (rw (ltb-true 0 m.fixed_header.qos_level q) (rw small (rw (ltb-false _ _ h))))

decode_buffer_panics :
    (m : Publish) (size : ℕ) (buffer r : List ℕ)
    → 0 < m.fixed_header.qos_level
    → size ≤ length buffer
    → length buffer < size + 2
    → size + 2 < 65536
    → decode_buffer m size buffer r ≡ (panic, r)
unfolding decode_buffer
decode_buffer_panics m size buffer r q h k l =
    let small : (size + 2) % 65536 ≡ size + 2 = omega arith in
    rw (ltb-false _ _ h)
      (rw (ltb-true 0 m.fixed_header.qos_level q) (rw small (rw (ltb-true _ _ k))))

-- Above QoS 0, where the remaining length is 2 more than the `n` bytes behind the topic's length,
-- the stream holds these, and they hold the topic but not both bytes of the identifier, `decode`
-- panics, for a topic below 2^16 - 2 bytes, at least one byte `n`, and every pace of the
-- connection.
pub decode_panics :
    (pace : ℕ → ℕ) (m : Publish) (b c n : ℕ) (r : List ℕ)
    → 0 < m.fixed_header.qos_level
    → m.fixed_header.remaining_length ≡ 2 + n
    → 1 ≤ n
    → n ≤ length r
    → b * 256 + c ≤ n
    → n < b * 256 + c + 2
    → b * 256 + c + 2 < 65536
    → decode pace m (b ∷ c ∷ r) ≡ (panic, drop n r)
decode_panics pace m b c n r q e h k lo hi fits =
    decode_whole pace m b c n r e h k
    ∙ decode_buffer_panics m (b * 256 + c) (take n r) (drop n r) q (omega (arith, length-take n r))
        (omega (arith, length-take n r)) fits

-- What stands behind the topic's length on the wire.
unfoldable pub content : Publish → List ℕ
content m =
    m.topic_name
    ++ (if ltb 0 m.fixed_header.qos_level
        then (m.packet_identifier / 256) ∷ (m.packet_identifier % 256) ∷ m.payload
        else m.payload)

pub write_to-content :
    (m : Publish) (w : List ℕ)
    → length m.topic_name < 65536
    → (write_to m w).1
      ≡ (header_write_to m.fixed_header (2 + length (content m)) w).1
        ++ (length m.topic_name / 256) ∷ (length m.topic_name % 256) ∷ content m
unfolding write_to content
write_to-content m w h =
    let topic = m.topic_name in
    let small : length topic % 65536 ≡ length topic = omega arith in
    let ident : List ℕ = (m.packet_identifier / 256) ∷ (m.packet_identifier % 256) ∷ m.payload in
    elim (Bool-cases (ltb 0 m.fixed_header.qos_level)) [
      | inl q ↦
          rw (q, small)
            (let size : 2 + length topic + 2 + length m.payload ≡ 2 + length (topic ++ ident) =
                omega (arith, length-append {0} topic ident) in
              rw size (simp append_assoc))
      | inr q ↦
          rw (q, small)
            (let size : 2 + length topic + 0 + length m.payload ≡ 2 + length (topic ++ m.payload) =
                omega (arith, length-append {0} topic m.payload) in
              rw size (simp append_assoc))
    ]

decode_buffer-content :
    (m0 m : Publish) (rest : List ℕ)
    → m0.fixed_header.qos_level ≡ m.fixed_header.qos_level
    → length m.topic_name + 2 < 65536
    → decode_buffer m0
        (length m.topic_name / 256 * 256 + length m.topic_name % 256)
        (content m)
        rest
      ≡ (
        ok (record m0 {
          topic_name = m.topic_name;
          packet_identifier =
              if ltb 0 m.fixed_header.qos_level then m.packet_identifier else m0.packet_identifier;
          payload = m.payload;
        }),
        rest,
      )
unfolding content
decode_buffer-content m0 m rest q k =
    let topic = m.topic_name in
    let ident : List ℕ = (m.packet_identifier / 256) ∷ (m.packet_identifier % 256) ∷ m.payload in
    let pair : length topic / 256 * 256 + length topic % 256 ≡ length topic = omega arith in
    elim (Bool-cases (ltb 0 m.fixed_header.qos_level)) [
      | inl p ↦
          rw (p, pair)
            (decode_buffer_ident m0 (length topic) (topic ++ ident) rest
                (omega (arith, ltb→lt 0 m.fixed_header.qos_level p))
                (omega (arith, length-append {0} topic ident)) k
              ∙ rw (take-append, drop-append, drop-append_add, u16_at_pair))
      | inr p ↦
          rw (p, pair)
            (decode_buffer_plain m0 (length topic) (topic ++ m.payload) rest (ground (arith, p))
                (omega (arith, length-append {0} topic m.payload))
              ∙ rw (take-append, drop-append))
    ]

-- `decode` of a content that follows its topic's length, in the middle of a stream.
pub decode-content :
    (pace : ℕ → ℕ) (m0 m : Publish) (rest : List ℕ)
    → m0.fixed_header.remaining_length ≡ 2 + length (content m)
    → m0.fixed_header.qos_level ≡ m.fixed_header.qos_level
    → 1 ≤ length (content m)
    → length m.topic_name + 2 < 65536
    → decode pace m0 ((length m.topic_name / 256) ∷ (length m.topic_name % 256) ∷ content m ++ rest)
      ≡ (
        ok (record m0 {
          topic_name = m.topic_name;
          packet_identifier =
              if ltb 0 m.fixed_header.qos_level then m.packet_identifier else m0.packet_identifier;
          payload = m.payload;
        }),
        rest,
      )
decode-content pace m0 m rest e q h k =
    decode_whole pace m0 (length m.topic_name / 256) (length m.topic_name % 256)
      (length (content m)) (content m ++ rest) e h
      (omega (arith, length-append {0} (content m) rest))
    ∙ rw (take-append, drop-append) (decode_buffer-content m0 m rest q k)

-- ===== src/Packet/Subscribe/RoundTrip.antt =====
-- `Subscribe.decode` on what `Subscribe.WriteTo` wrote.
use magic_mqtt.Prelude.{
  ℕ, zero, suc, ◌+◌, ◌-◌, ◌/◌, ◌%◌, ◌≤◌, ◌<◌, ◌≡◌, ◌∙◌, refl, List, [], ◌∷◌, ◌++◌, All, length,
  length-append, take-append, drop-append, append-nil, append_assoc, ltb-true, arith,
}
use magic_mqtt.Encoding.Stream.{ok, read_u8, read_u16, u16_at_pair, read_u16_pair, copy_n}
use magic_mqtt.Encoding.Header.{header_write_to}
use magic_mqtt.Packet.Subscribe.{
  SubscribePayload, Subscribe, payload_size, write_payload, write_to, payload_loop, decode,
}

abbrev pub IsShort : SubscribePayload → Type 0
IsShort p = length p.topic_path < 65536

-- The requests on the wire.
unfoldable pub wire : List SubscribePayload → List ℕ
wire [] = []
wire (p ∷ ps) =
    (length p.topic_path / 256) ∷ (length p.topic_path % 256) ∷ p.topic_path
    ++ (p.requested_qos ∷ wire ps)

write_payload-wire :
    (ps : List SubscribePayload) (w : List ℕ) → All IsShort ps → write_payload ps w ≡ w ++ wire ps
unfolding write_payload wire
write_payload-wire [] w h = rw append-nil
write_payload-wire (p ∷ ps) w (h, hs) =
    let small : length p.topic_path % 65536 ≡ length p.topic_path = omega arith in
    write_payload-wire ps _ hs ∙ rw small (simp append_assoc)

pub length-wire : (ps : List SubscribePayload) → All IsShort ps → length (wire ps) ≡ payload_size ps
unfolding wire payload_size
length-wire [] h = refl
length-wire (p ∷ ps) (h, hs) =
    omega (arith, length-append {0} p.topic_path (p.requested_qos ∷ wire ps), length-wire ps hs)

-- One round of the loop reads one request.
payload_loop_step :
    (fuel remaining : ℕ) (acc : List SubscribePayload) (p : SubscribePayload) (r : List ℕ)
    → 0 < remaining
    → payload_loop (suc fuel) remaining acc (
        (length p.topic_path / 256) ∷ (length p.topic_path % 256) ∷ p.topic_path
        ++ (p.requested_qos ∷ r))
      ≡ payload_loop fuel (remaining - (length p.topic_path + 1 + 2)) (acc ++ p ∷ []) r
unfolding payload_loop read_u16 copy_n read_u8
payload_loop_step fuel remaining acc p r h =
    rw (ltb-true 0 remaining h) (rw (u16_at_pair, take-append, drop-append))

payload_loop_done :
    (fuel : ℕ) (acc : List SubscribePayload) (r : List ℕ) → payload_loop fuel 0 acc r ≡ (ok acc, r)
unfolding payload_loop
payload_loop_done zero acc r = refl
payload_loop_done (suc fuel) acc r = refl

payload_loop-wire :
    (ps : List SubscribePayload) (fuel remaining : ℕ) (acc : List SubscribePayload) (rest : List ℕ)
    → remaining ≡ payload_size ps
    → All IsShort ps
    → remaining ≤ fuel
    → payload_loop fuel remaining acc (wire ps ++ rest) ≡ (ok (acc ++ ps), rest)
unfolding wire payload_size
payload_loop-wire [] fuel remaining acc rest e h f =
    rw (e, append-nil) (payload_loop_done fuel acc rest)
payload_loop-wire (p ∷ ps) zero remaining acc rest e h f = absurd (omega arith)
payload_loop-wire (p ∷ ps) (suc fuel) remaining acc rest e (h, hs) f =
    let left = remaining - (length p.topic_path + 1 + 2) in
    rw (append_assoc p.topic_path (p.requested_qos ∷ wire ps) rest) (
      payload_loop_step fuel remaining acc p (wire ps ++ rest) (omega arith)
      ∙ payload_loop-wire ps fuel left (acc ++ p ∷ []) rest (omega arith) hs (omega arith)
      ∙ rw append_assoc)

-- A SUBSCRIBE body: the identifier and the requests.
unfoldable pub body : Subscribe → List ℕ
body m = (m.packet_identifier / 256) ∷ (m.packet_identifier % 256) ∷ wire m.payload

pub write_to-body :
    (m : Subscribe) (w : List ℕ)
    → All IsShort m.payload
    → (write_to m w).1 ≡ (header_write_to m.fixed_header (2 + payload_size m.payload) w).1 ++ body m
unfolding write_to body
write_to-body m w h = write_payload-wire m.payload _ h ∙ simp append_assoc

-- `decode` of a body in the middle of a stream.
pub decode-body :
    (m0 m : Subscribe) (rest : List ℕ)
    → m0.fixed_header.remaining_length ≡ 2 + payload_size m.payload
    → All IsShort m.payload
    → decode m0 (body m ++ rest) ≡ (
      ok (record m0 { packet_identifier = m.packet_identifier; payload = m0.payload ++ m.payload }),
      rest,
    )
unfolding decode body
decode-body m0 m rest e h =
    let left : m0.fixed_header.remaining_length - 2 ≡ payload_size m.payload = omega arith in
    rw (read_u16_pair, left)
      (rw (
        payload_loop-wire m.payload (payload_size m.payload) (payload_size m.payload) m0.payload
          rest refl h (omega arith)))

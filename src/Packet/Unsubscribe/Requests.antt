-- ===== src/Packet/Unsubscribe/Requests.antt =====
-- Which requests `Unsubscribe.decode` reads of those that `Unsubscribe.WriteTo` wrote.
use magic_mqtt.Prelude.{
  ℕ, zero, suc, ◌+◌, ◌-◌, ◌/◌, ◌%◌, ◌≤◌, ◌<◌, ◌≡◌, ◌∙◌, refl, List, [], ◌∷◌, ◌++◌, All, length, map,
  take-append, drop-append, append-nil, append_assoc, ltb-true, arith,
}
use magic_mqtt.Encoding.Stream.{ok, read_u16, u16_at_pair, read_u16_pair, copy_n}
use magic_mqtt.Encoding.Header.{header_write_to}
use magic_mqtt.Packet.Subscribe.{SubscribePayload}
use magic_mqtt.Packet.Subscribe.RoundTrip.{IsShort}
use magic_mqtt.Packet.Unsubscribe.{
  Unsubscribe, payload_size, write_payload, write_to, payload_loop, decode,
}

-- The requests on the wire, and what comes back of one: the QoS is not written.
unfoldable pub wire : List SubscribePayload → List ℕ
wire [] = []
wire (p ∷ ps) = (length p.topic_path / 256) ∷ (length p.topic_path % 256) ∷ p.topic_path ++ wire ps

abbrev pub topic_only : SubscribePayload → SubscribePayload
topic_only p = record p { requested_qos = 0 }

write_payload-wire :
    (ps : List SubscribePayload) (w : List ℕ) → All IsShort ps → write_payload ps w ≡ w ++ wire ps
unfolding write_payload wire
write_payload-wire [] w h = rw append-nil
write_payload-wire (p ∷ ps) w (h, hs) =
    let small : length p.topic_path % 65536 ≡ length p.topic_path = omega arith in
    write_payload-wire ps _ hs ∙ rw small (simp append_assoc)

payload_loop_step :
    (fuel remaining : ℕ) (acc : List SubscribePayload) (p : SubscribePayload) (r : List ℕ)
    → 0 < remaining
    → payload_loop
        (suc fuel)
        remaining
        acc
        ((length p.topic_path / 256) ∷ (length p.topic_path % 256) ∷ p.topic_path ++ r)
      ≡ payload_loop fuel (remaining - (length p.topic_path + 1 + 2)) (acc ++ topic_only p ∷ []) r
unfolding payload_loop read_u16 copy_n
payload_loop_step fuel remaining acc p r h =
    rw (ltb-true 0 remaining h) (rw (u16_at_pair, take-append, drop-append))

payload_loop_done :
    (fuel : ℕ) (acc : List SubscribePayload) (r : List ℕ) → payload_loop fuel 0 acc r ≡ (ok acc, r)
unfolding payload_loop
payload_loop_done zero acc r = refl
payload_loop_done (suc fuel) acc r = refl

-- A topic of at least `n - 2` bytes, so that `n` rounds before it do not use `remaining` up.
abbrev pub Covers : ℕ → SubscribePayload → Type 0
Covers n p = n ≤ length p.topic_path + 2

-- After `k` requests the loop is `k` behind. It reads `ps`, and ends where the rest of `t` bytes is
-- not longer than the number of requests read.
payload_loop-wire :
    (ps : List SubscribePayload) (fuel remaining k t : ℕ) (acc : List SubscribePayload) (r : List ℕ)
    → remaining ≡ payload_size ps + t - k
    → All IsShort ps
    → All (Covers (k + length ps)) ps
    → t ≤ k + length ps
    → remaining ≤ fuel
    → payload_loop fuel remaining acc (wire ps ++ r) ≡ (ok (acc ++ map topic_only ps), r)
unfolding wire payload_size
payload_loop-wire [] fuel remaining k t acc r e s h l f =
    let done : remaining ≡ 0 = omega arith in rw (done, append-nil) (payload_loop_done fuel acc r)
payload_loop-wire (p ∷ ps) zero remaining k t acc r e (s, ss) (h, hs) l f = absurd (omega arith)
payload_loop-wire (p ∷ ps) (suc fuel) remaining k t acc r e (s, ss) (h, hs) l f =
    let left = remaining - (length p.topic_path + 1 + 2) in
    let count : k + 1 + length ps ≡ k + suc (length ps) = omega arith in
    rw (append_assoc p.topic_path (wire ps) r) (
      payload_loop_step fuel remaining acc p (wire ps ++ r) (omega arith)
      ∙ payload_loop-wire ps fuel left (k + 1) t (acc ++ topic_only p ∷ []) r (omega arith) ss
          (rw count hs) (omega arith) (omega arith)
      ∙ rw append_assoc)

unfoldable pub body : Unsubscribe → List ℕ
body m = (m.packet_identifier / 256) ∷ (m.packet_identifier % 256) ∷ wire m.payload

pub write_to-body :
    (m : Unsubscribe) (w : List ℕ)
    → All IsShort m.payload
    → (write_to m w).1 ≡ (header_write_to m.fixed_header (2 + payload_size m.payload) w).1 ++ body m
unfolding write_to body
write_to-body m w h = write_payload-wire m.payload _ h ∙ simp append_assoc

-- Where the remaining length is that of the requests `ps`, which the stream holds, and `t` more
-- bytes, `t` at most the number of requests, `decode` reads `ps` and stops: the `t` bytes stay in
-- the stream. Every topic of `ps` is below 2^16 bytes and has no more than two bytes fewer than there
-- are requests.
pub decode_requests :
    (m : Unsubscribe) (id t : ℕ) (ps : List SubscribePayload) (r : List ℕ)
    → m.fixed_header.remaining_length ≡ 2 + payload_size ps + t
    → All IsShort ps
    → All (Covers (length ps)) ps
    → t ≤ length ps
    → decode m ((id / 256) ∷ (id % 256) ∷ wire ps ++ r)
      ≡ (ok (record m { packet_identifier = id; payload = m.payload ++ map topic_only ps }), r)
unfolding decode
decode_requests m id t ps r e s h l =
    let left : m.fixed_header.remaining_length - 2 ≡ payload_size ps + t = omega arith in
    let count : length ps ≡ 0 + length ps = omega arith in
    rw (read_u16_pair, left)
      (rw (
        payload_loop-wire ps (payload_size ps + t) (payload_size ps + t) 0 t m.payload r
          (omega arith) s (rw count at h) (omega arith) (omega arith)))

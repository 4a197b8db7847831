-- ===== src/Packet/Suback/Codes.antt =====
-- How many return codes `Suback.decode` reads.
use magic_mqtt.Prelude.{
  ℕ, zero, suc, ◌+◌, ◌-◌, ◌*◌, ◌/◌, ◌%◌, ◌≤◌, ◌<◌, ◌≡◌, ◌∙◌, List, [], ◌∷◌, ◌++◌, length, take,
  drop, append-nil, append_assoc, leb-true, leb-false, arith,
}
use magic_mqtt.Encoding.Stream.{ok, read_u8, u8_at, read_u16, u16_at}
use magic_mqtt.Packet.Suback.{Suback, qos_loop, decode}

-- While `i` rises and `remaining` falls the loop reads `k` bytes until they pass each other.
qos_loop_reads :
    (k fuel i remaining : ℕ) (buffer r : List ℕ)
    → k ≡ (remaining + 2 - i) / 2
    → 1 ≤ remaining + i
    → remaining < 256
    → k < fuel
    → k ≤ length r
    → qos_loop fuel i remaining buffer r ≡ (ok (buffer ++ take k r), drop k r)
unfolding qos_loop read_u8 u8_at
qos_loop_reads k zero i remaining buffer r e p s f l = absurd (omega arith)
qos_loop_reads zero (suc fuel) i remaining buffer r e p s f l =
    rw (leb-false i remaining (omega arith)) (rw append-nil)
qos_loop_reads (suc k) (suc fuel) i remaining buffer [] e p s f l = absurd (omega arith)
qos_loop_reads (suc k) (suc fuel) i remaining buffer (b ∷ r) e p s f l =
    let less : (remaining + 256 - 1) % 256 ≡ remaining - 1 = omega arith in
    rw (leb-true i remaining (omega arith)) (
      rw less (
        qos_loop_reads k fuel (i + 1) (remaining - 1) (buffer ++ b ∷ []) r (omega arith)
          (omega arith) (omega arith) (omega arith) (omega arith)
        ∙ rw append_assoc))

-- Of a SUBACK that announces `n` return codes, 1 to 253, `decode` takes the first `n / 2 + 1`,
-- where the stream holds these, and leaves the rest of the packet in the stream.
pub decode_codes :
    (m : Suback) (b c n : ℕ) (r : List ℕ)
    → m.fixed_header.remaining_length ≡ n + 2
    → 1 ≤ n
    → n ≤ 253
    → n / 2 + 1 ≤ length r
    → decode m (b ∷ c ∷ r) ≡ (
      ok (record m { packet_identifier = b * 256 + c; qos = take (n / 2 + 1) r }),
      drop (n / 2 + 1) r,
    )
unfolding decode read_u16 u16_at
decode_codes m b c n r e lo hi h =
    let left : (m.fixed_header.remaining_length % 256 + 256 - 2) % 256 ≡ n = omega arith in
    rw left (
      rw (
        qos_loop_reads (n / 2 + 1) 257 0 n [] r (omega arith) (omega arith) (omega arith)
          (omega arith) h))

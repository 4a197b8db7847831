-- ===== src/Packet/Publish.antt =====
-- encoding/message/publish.go, with `SpawnPublishMessage` of mqtt.go. The field `Opaque` is neither
-- read nor written.
pub mod Fill
pub mod RoundTrip
use Prim.Native.Nat.{min}
use magic_mqtt.Prelude.{
  ℕ, zero, suc, ◌+◌, ◌-◌, ◌%◌, List, [], ◌∷◌, ◌++◌, length, take, drop, ltb, if◌then◌else◌,
}
use magic_mqtt.Encoding.PType
use magic_mqtt.Encoding.Stream.{
  Read, ◌>>=◌, ok, err, pure, fail, panics, out_of_fuel, eof, crupted_data, publish_length, u16_at,
  read_u16, write_u16,
}
use magic_mqtt.Encoding.Header.{FixedHeader, of_type, header_write_to}

pub record Publish : Type 0 where
  pub fixed_header : FixedHeader
  pub topic_name : List ℕ
  pub packet_identifier : ℕ
  pub payload : List ℕ

abbrev pub spawn : Publish
spawn = record {
  fixed_header = of_type PType.publish 0;
  topic_name = [];
  packet_identifier = 0;
  payload = [];
}

-- The count that it answers has the topic twice.
unfoldable pub write_to : Publish → List ℕ → ℕ × List ℕ
write_to m w =
    let size = length m.topic_name % 65536 in
    let qos = m.fixed_header.qos_level in
    let total = 2 + size + (if ltb 0 qos then 2 else 0) + length m.payload in
    let (header_len, w') = header_write_to m.fixed_header total w in
    let w' = write_u16 size w' ++ m.topic_name in
    let w' = if ltb 0 qos then write_u16 m.packet_identifier w' else w' in
    (total + size + header_len, w' ++ m.payload)

-- How many bytes one `reader.Read` hands over where `r` is still to come: at least one and at most
-- what is wanted and what there is. `pace` is the rest of the choice, which the source leaves to
-- the connection.
unfoldable pub chunk : (ℕ → ℕ) → ℕ → List ℕ → ℕ
chunk pace wanted r = min wanted (min (suc (pace (length r))) (length r))

-- The loop `for offset < remaining` with its fuel, the bytes still wanted and those read. At the
-- end of the stream a read answers EOF.
unfoldable pub fill : (ℕ → ℕ) → ℕ → ℕ → List ℕ → Read (List ℕ)
unfolding chunk
fill pace fuel zero buffer r = (ok buffer, r)
fill pace zero (suc wanted) buffer r = out_of_fuel r
fill pace (suc fuel) (suc wanted) buffer [] = (err eof, [])
fill pace (suc fuel) (suc wanted) buffer (b ∷ r) =
    let n = chunk pace (suc wanted) (b ∷ r) in
    fill pace fuel (suc wanted - n) (buffer ++ take n (b ∷ r)) (drop n (b ∷ r))

-- What `decode` makes of the filled buffer; the offset of the payload is a uint16, and a slice
-- that begins past the end of the buffer panics.
unfoldable pub decode_buffer : Publish → ℕ → List ℕ → Read Publish
decode_buffer m size buffer =
    if ltb (length buffer) size
    then fail publish_length
    else let with_id = ltb 0 m.fixed_header.qos_level in
      let payload_offset = if with_id then (size + 2) % 65536 else size in
      if ltb (length buffer) payload_offset
      then panics
      else pure (record m {
        topic_name = take size buffer;
        packet_identifier =
            if with_id then u16_at m.packet_identifier (drop size buffer) else m.packet_identifier;
        payload = drop payload_offset buffer;
      })

unfoldable pub decode : (ℕ → ℕ) → Publish → Read Publish
decode pace m = do
  size ← read_u16 0
  let remaining = m.fixed_header.remaining_length - 2
  if ltb remaining 1
      then fail crupted_data
      else do buffer ← fill pace remaining remaining []; decode_buffer m size buffer

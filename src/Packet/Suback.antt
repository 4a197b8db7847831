-- ===== src/Packet/Suback.antt =====
-- encoding/message/suback.go, with `SpawnSubackMessage` of mqtt.go.
pub mod Codes
use magic_mqtt.Prelude.{
  ℕ, zero, suc, ◌+◌, ◌-◌, ◌%◌, List, [], ◌∷◌, ◌++◌, length, leb, if◌then◌else◌,
}
use magic_mqtt.Encoding.PType
use magic_mqtt.Encoding.Stream.{Read, ◌>>=◌, pure, out_of_fuel, read_u8, read_u16, write_u16}
use magic_mqtt.Encoding.Header.{FixedHeader, of_type, header_write_to}

pub record Suback : Type 0 where
  pub fixed_header : FixedHeader
  pub packet_identifier : ℕ
  pub qos : List ℕ

abbrev pub spawn : Suback
spawn = record { fixed_header = of_type PType.suback 0; packet_identifier = 0; qos = [] }

unfoldable pub write_to : Suback → List ℕ → ℕ × List ℕ
write_to m w =
    let fsize = 2 + length m.qos in
    let (size, w') = header_write_to m.fixed_header fsize w in
    (size + fsize, write_u16 m.packet_identifier w' ++ m.qos)

-- The loop of `decode` with its fuel, `i`, the uint8 `remaining` and the buffer: `i` rises while
-- `remaining` falls, and falls from 0 to 255.
unfoldable pub qos_loop : ℕ → ℕ → ℕ → List ℕ → Read (List ℕ)
qos_loop zero i remaining buffer = out_of_fuel
qos_loop (suc fuel) i remaining buffer =
    let next = (do
      value ← read_u8 0
      qos_loop fuel (i + 1) ((remaining + 256 - 1) % 256) (buffer ++ value ∷ [])) in
    if leb i remaining then next else pure buffer

-- `remaining` is a uint8, so `i` cannot pass 256.
unfoldable pub decode : Suback → Read Suback
decode m = do
  id ← read_u16 m.packet_identifier
  buffer ← qos_loop 257 0 ((m.fixed_header.remaining_length % 256 + 256 - 2) % 256) []
  pure (record m { packet_identifier = id; qos = buffer })

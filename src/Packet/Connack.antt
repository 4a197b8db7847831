-- ===== src/Packet/Connack.antt =====
-- encoding/message/connack.go, with `SpawnConnackMessage` of mqtt.go.
use magic_mqtt.Prelude.{ℕ, ◌+◌, List}
use magic_mqtt.Encoding.PType
use magic_mqtt.Encoding.Stream.{Read, ◌>>=◌, pure, read_u8, write_u8}
use magic_mqtt.Encoding.Header.{FixedHeader, of_type, header_write_to}

pub record Connack : Type 0 where
  pub fixed_header : FixedHeader
  pub reserved : ℕ
  pub return_code : ℕ

abbrev pub spawn : Connack
spawn = record { fixed_header = of_type PType.connack 0; reserved = 0; return_code = 0 }

unfoldable pub decode : Connack → Read Connack
decode m = do
  reserved ← read_u8 m.reserved
  return_code ← read_u8 m.return_code
  pure (record m { reserved = reserved; return_code = return_code })

unfoldable pub write_to : Connack → List ℕ → ℕ × List ℕ
write_to m w =
    let (size, w') = header_write_to m.fixed_header 2 w in
    (size + 2, write_u8 m.return_code (write_u8 m.reserved w'))

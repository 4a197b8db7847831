-- ===== src/Packet/Pubrec.antt =====
-- encoding/message/pubrec.go, with `SpawnPubrecMessage` of mqtt.go.
use magic_mqtt.Prelude.{ℕ, ◌+◌, List}
use magic_mqtt.Encoding.PType
use magic_mqtt.Encoding.Stream.{Read, ◌>>=◌, pure, read_u16, write_u16}
use magic_mqtt.Encoding.Header.{FixedHeader, of_type, header_write_to}

pub record Pubrec : Type 0 where
  pub fixed_header : FixedHeader
  pub packet_identifier : ℕ

abbrev pub spawn : Pubrec
spawn = record { fixed_header = of_type PType.pubrec 0; packet_identifier = 0 }

unfoldable pub decode : Pubrec → Read Pubrec
decode m = do id ← read_u16 m.packet_identifier; pure (record m { packet_identifier = id })

unfoldable pub write_to : Pubrec → List ℕ → ℕ × List ℕ
write_to m w =
    let (size, w') = header_write_to m.fixed_header 2 w in
    (size + 2, write_u16 m.packet_identifier w')

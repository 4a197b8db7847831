-- ===== src/Packet/Pingreq.antt =====
-- encoding/message/pingreq.go, with `SpawnPingreqMessage` of mqtt.go.
use magic_mqtt.Prelude.{ℕ, List}
use magic_mqtt.Encoding.PType
use magic_mqtt.Encoding.Header.{FixedHeader, of_type, header_write_to}

pub record Pingreq : Type 0 where
  pub fixed_header : FixedHeader

abbrev pub spawn : Pingreq
spawn = record { fixed_header = of_type PType.pingreq 0 }

unfoldable pub write_to : Pingreq → List ℕ → ℕ × List ℕ
write_to m w = let (size, w') = header_write_to m.fixed_header 0 w in (size, w')

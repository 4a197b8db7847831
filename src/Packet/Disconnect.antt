-- ===== src/Packet/Disconnect.antt =====
-- encoding/message/disconnect.go, with `SpawnDisconnectMessage` of mqtt.go.
use magic_mqtt.Prelude.{ℕ, List}
use magic_mqtt.Encoding.PType
use magic_mqtt.Encoding.Header.{FixedHeader, of_type, header_write_to}

pub record Disconnect : Type 0 where
  pub fixed_header : FixedHeader

abbrev pub spawn : Disconnect
spawn = record { fixed_header = of_type PType.disconnect 0 }

unfoldable pub write_to : Disconnect → List ℕ → ℕ × List ℕ
write_to m w = let (size, w') = header_write_to m.fixed_header 0 w in (size, w')

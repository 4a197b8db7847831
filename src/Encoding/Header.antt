-- ===== src/Encoding/Header.antt =====
-- encoding/message/fixedheader.go: the first byte of a packet and its remaining length.
pub mod RoundTrip
use magic_mqtt.Prelude.{
  ℕ, ◌+◌, ◌*◌, ◌/◌, ◌%◌, Bool, true, false, List, [], ◌∷◌, ltb, ◌==◌, if◌then◌else◌, bit_and,
  bit_or,
}
use magic_mqtt.Encoding.PType.{PType}
use magic_mqtt.Encoding.Stream.{Read, ◌>>=◌, pure, read_byte, write_u8}
use magic_mqtt.Encoding.Varint.{read_varint, write_varint}

pub record FixedHeader : Type 0 where
  pub type : PType
  pub dupe : Bool
  pub qos_level : ℕ
  pub retain : ℕ
  pub remaining_length : ℕ

-- Go's `FixedHeader{}`.
abbrev pub zero_header : FixedHeader
zero_header = record { type = 0; dupe = false; qos_level = 0; retain = 0; remaining_length = 0 }

abbrev pub of_type : PType → ℕ → FixedHeader
of_type t qos = record zero_header { type = t; qos_level = qos }

-- The variable `flag` of `writeTo`, a uint8.
unfoldable pub first_byte : PType → Bool → ℕ → ℕ → ℕ
first_byte type dupe qos_level retain =
    let flag = type * 16 % 256 in
    let flag = if ltb 0 retain then bit_or flag 0x01 else flag in
    let flag =
      if qos_level == 1
      then bit_or flag 0x02
      else if qos_level == 2
      then bit_or flag 0x04
      else flag in
    if dupe then bit_or flag 0x08 else flag

-- `writeTo`: the size that it answers is always 2.
unfoldable pub header_write_to : FixedHeader → ℕ → List ℕ → ℕ × List ℕ
header_write_to h length w =
    (2, (write_varint length (write_u8 (first_byte h.type h.dupe h.qos_level h.retain) w)).1)

-- What `decode` makes of the first byte, over the header that it is called on.
unfoldable pub decode_first : FixedHeader → ℕ → FixedHeader
decode_first h first =
    let flag = bit_and first 0x0f in
    record h {
      type = first / 16;
      dupe = ltb 0 (bit_and flag 0x08);
      retain = if ltb 0 (bit_and flag 0x01) then 1 else h.retain;
      qos_level =
          if ltb 0 (bit_and flag 0x04)
          then 2
          else if ltb 0 (bit_and flag 0x02)
          then 1
          else h.qos_level;
    }

unfoldable pub header_decode : FixedHeader → Read FixedHeader
header_decode h = do
  first ← read_byte
  length ← read_varint
  pure (record (decode_first h first) { remaining_length = length })

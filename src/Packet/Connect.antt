-- ===== src/Packet/Connect.antt =====
-- encoding/message/connect.go and will.go, with `SpawnConnectMessage` of mqtt.go.
use magic_mqtt.Prelude.{
  ℕ, ◌+◌, ◌-◌, ◌/◌, ◌%◌, Bool, true, false, Option, none, some, List, [], ◌∷◌, ◌++◌, length, take,
  drop, replicate, ltb, ◌==◌, if◌then◌else◌, bit_and, bit_or,
}
use magic_mqtt.Encoding.PType
use magic_mqtt.Encoding.Stream.{
  Read, ◌>>=◌, pure, fail, panics, length_overs, offset_overs, u8_at, u16_at, copy_n, write_u8,
  write_u16,
}
use magic_mqtt.Encoding.Header.{FixedHeader, of_type, header_write_to}

pub record Will : Type 0 where
  pub qos : ℕ
  pub topic : List ℕ
  pub message : List ℕ
  pub retain : Bool

pub record Connect : Type 0 where
  pub fixed_header : FixedHeader
  pub magic : List ℕ
  pub version : ℕ
  pub flag : ℕ
  pub keep_alive : ℕ
  pub identifier : List ℕ
  pub will : Option Will
  pub clean_session : Bool
  pub user_name : List ℕ
  pub password : List ℕ

abbrev pub of_header : FixedHeader → Connect
of_header h = record {
  fixed_header = h;
  magic = [];
  version = 0;
  flag = 0;
  keep_alive = 0;
  identifier = [];
  will = none;
  clean_session = false;
  user_name = [];
  password = [];
}

abbrev pub spawn : Connect
spawn = record (of_header (of_type PType.connect 0)) {
  magic = b'M' ∷ b'Q' ∷ b'T' ∷ b'T' ∷ [];
  version = 4;
}

-- A text behind its length, a uint16.
abbrev pub write_text : List ℕ → List ℕ → List ℕ
write_text s w = write_u16 (length s % 65536) w ++ s

unfoldable pub will_write_to : Will → List ℕ → ℕ × List ℕ
will_write_to m w = (
  2 + length m.topic % 65536 + (2 + length m.message % 65536),
  write_text m.message (write_text m.topic w),
)

unfoldable pub will_size : Will → ℕ
will_size m = 2 + length m.topic % 65536 + (2 + length m.message % 65536)

abbrev pub will_flag : Option Will → ℕ → ℕ
will_flag none flag = flag
will_flag (some m) flag =
    let flag = bit_or flag 0x04 in
    if m.qos == 1 then bit_or flag 0x08 else if m.qos == 2 then bit_or flag 0x18 else flag

-- The flag byte that `WriteTo` leaves in the message.
unfoldable pub write_flag : Connect → ℕ
write_flag m =
    let flag = if m.clean_session then bit_or m.flag 0x02 else m.flag in
    let flag = will_flag m.will flag in
    let flag = if ltb 0 (length m.user_name) then bit_or flag 0x80 else flag in
    if ltb 0 (length m.password) then bit_or flag 0x40 else flag

abbrev pub has : ℕ → ℕ → Bool
has flag mask = ltb 0 (bit_and flag mask)

abbrev pub size_of_will : Option Will → ℕ
size_of_will none = 0
size_of_will (some m) = will_size m

abbrev pub write_will : Option Will → List ℕ → List ℕ
write_will none w = w
write_will (some m) w = (will_write_to m w).1

-- The length that is announced: it leaves out the length field of an empty identifier.
unfoldable pub connect_size : Connect → ℕ → ℕ
connect_size m flag =
    2
    + length m.magic
    + (1 + 1 + 2)
    + (if ltb 0 (length m.identifier) then 2 + length m.identifier else 0)
    + (if has flag 0x04 then size_of_will m.will else 0)
    + (if has flag 0x80 then 2 + length m.user_name else 0)
    + (if has flag 0x40 then 2 + length m.password else 0)

-- `if Length > 0` on the uint16, so an identifier of 65536 bytes is left out.
abbrev pub write_identifier : List ℕ → List ℕ → List ℕ
write_identifier s w =
    let w' = write_u16 (length s % 65536) w in if ltb 0 (length s % 65536) then w' ++ s else w'

-- `WriteTo` sets the flags in the message that it is called on.
unfoldable pub write_to : Connect → List ℕ → ℕ × Connect × List ℕ
write_to m w =
    let flag = write_flag m in
    let size = connect_size m flag in
    let w' = (header_write_to m.fixed_header size w).1 in
    let w' = write_u16 (length m.magic % 65536) w' ++ m.magic in
    let w' = write_u16 m.keep_alive (write_u8 flag (write_u8 m.version w')) in
    let w' = write_identifier m.identifier w' in
    let w' = if has flag 0x04 then write_will m.will w' else w' in
    let w' = if has flag 0x80 then write_text m.user_name w' else w' in
    let w' = if has flag 0x40 then write_text m.password w' else w' in
    (size, record m { flag = flag }, w')

-- `buffer[lo : hi]` of a slice with `slack` zero bytes of capacity behind its length, which Go lets
-- such a slice reach; past the capacity it panics.
unfoldable pub slice : ℕ → List ℕ → ℕ → ℕ → Read (List ℕ)
slice slack buffer lo hi =
    if ltb (length buffer + slack) hi
    then panics
    else pure (take (hi - lo) (drop lo (buffer ++ replicate slack 0)))

-- `bytes.NewReader(buffer[offset:])`, which panics where `offset` is past the length.
unfoldable pub from_offset : List ℕ → ℕ → Read (List ℕ)
from_offset buffer offset = if ltb (length buffer) offset then panics else pure (drop offset buffer)

-- A text behind its length; `size` keeps its value where the buffer has ended. It answers the
-- text, the length and the offset behind it.
unfoldable pub read_text : ℕ → List ℕ → ℕ → ℕ → Read (List ℕ × ℕ × ℕ)
read_text slack buffer size offset = do
  nr ← from_offset buffer offset
  let size' = u16_at size nr
  text ← slice slack buffer (offset + 2) (offset + 2 + size')
  pure (text, size', offset + 2 + size')

-- The flags of the will; the mask 0x32 is the source's.
abbrev pub will_qos : ℕ → ℕ
will_qos flag =
    let q = flag / 8 in
    if ltb 0 (bit_and q 0x02) then 2 else if ltb 0 (bit_and q 0x01) then 1 else 0

unfoldable pub decode_will : ℕ → List ℕ → ℕ → ℕ → ℕ → Option Will → Read (Option Will × ℕ)
decode_will slack buffer flag size offset old =
    if has flag 0x04
    then (do
      (topic, size, offset) ← read_text slack buffer size offset
      (message, size, offset) ← read_text slack buffer size offset
      let m : Will = record {
        qos = will_qos flag;
        topic = topic;
        message = message;
        retain = has flag 0x32;
      }
      pure (some m, offset))
    else pure (old, offset)

-- The two fields behind the will; `size` is the variable `Length`, which the magic's length set.
unfoldable pub decode_login : ℕ → List ℕ → ℕ → ℕ → ℕ → Connect → Read (List ℕ × List ℕ)
decode_login slack buffer flag size offset m = do
  (user_name, size, offset) ←
      (if has flag 0x80
        then read_text slack buffer size offset
        else pure (m.user_name, size, offset))
  (password, size, offset) ←
      (if has flag 0x40
        then read_text slack buffer size offset
        else pure (m.password, size, offset))
  pure (user_name, password)

-- The part of `decode` behind the magic, at the reader `nr` of the bytes from `offset` on.
unfoldable pub decode_rest : ℕ → List ℕ → ℕ → ℕ → Connect → Read Connect
decode_rest slack buffer size offset m = do
  let nr = drop offset buffer
  let version = u8_at m.version nr
  let flag = u8_at m.flag (drop 1 nr)
  let keep_alive = u16_at m.keep_alive (drop 2 nr)
  let id_size = u16_at 0 (drop 4 nr)
  let offset = offset + (1 + 1 + 2) + 2
  identifier ←
      (if ltb 0 id_size then slice slack buffer offset (offset + id_size) else pure m.identifier)
  let offset = offset + id_size
  (will, offset) ← decode_will slack buffer flag id_size offset m.will
  (user_name, password) ← decode_login slack buffer flag size offset m
  pure (record m {
    version = version;
    flag = flag;
    keep_alive = keep_alive;
    identifier = identifier;
    will = will;
    user_name = user_name;
    password = password;
    clean_session = if has flag 0x02 then true else m.clean_session;
  })

-- `slack` is the spare capacity of the buffer of `RemainingLength` bytes that `io.CopyN` filled.
unfoldable pub decode : ℕ → Connect → Read Connect
decode slack m = do
  let remaining_length = m.fixed_header.remaining_length
  buffer ← copy_n remaining_length
  let size = u16_at 0 buffer
  if ltb remaining_length (2 + size) then fail length_overs else do
    magic ← slice slack buffer 2 (2 + size)
    if ltb (length buffer) (2 + size)
        then fail offset_overs
        else decode_rest slack buffer size (2 + size) (record m { magic = magic })

-- ===== src/Encoding/Varint.antt =====
-- encoding/helper.go: the remaining length of a packet, seven bits a byte, lowest group first.
pub mod RoundTrip
pub mod Bounds
use magic_mqtt.Prelude.{
  ℕ, zero, suc, ◌+◌, ◌*◌, ◌/◌, ◌%◌, List, [], ◌∷◌, ◌++◌, ltb, ◌==◌, if◌then◌else◌, bit_and, bit_or,
}
use magic_mqtt.Encoding.Stream.{Read, ◌>>=◌, pure, fail, varint_overflow, read_u8, write_u8}

-- The loop of `ReadVarint` with the rounds left, the variable `RemainingLength`, `m` and `v`.
-- `RemainingLength` keeps its value when the stream has ended.
unfoldable pub read_loop : ℕ → ℕ → ℕ → ℕ → Read ℕ
unfolding read_u8
read_loop zero old m v = pure v
read_loop (suc k) old m v = do
  b ← read_u8 old
  let v' = v + bit_and b 0x7f * m
  let m' = m * 0x80
  let more = read_loop k b m' v'
  if ltb 0x20_0000 m' then fail varint_overflow else if bit_and b 0x80 == 0 then pure v' else more

unfoldable pub read_varint : Read ℕ
read_varint = read_loop 4 0 1 0

-- The loop of `WriteVarint` with the rounds left, `x` and `i`.
unfoldable pub write_loop : ℕ → ℕ → ℕ → List ℕ → ℕ × List ℕ
write_loop zero x i w = (i, w)
write_loop (suc k) x i w =
    let x' = x / 0x80 in
    let encode_byte = if ltb 0 x' then bit_or (x % 0x80 % 256) 0x80 else x % 0x80 % 256 in
    let rest = write_loop k x' (i + 1) (write_u8 encode_byte w) in if ltb 0 x then rest else (i, w)

unfoldable pub write_varint : ℕ → List ℕ → ℕ × List ℕ
write_varint size w = write_loop 4 size 0 w

-- ===== src/Encoding/Varint/Bounds.antt =====
-- The range of the sizes that `ReadVarint` answers.
use magic_mqtt.Prelude.{ℕ, zero, suc, ◌+◌, ◌*◌, ◌%◌, ◌<◌, ◌≤◌, ◌≡◌, List, [], ◌∷◌, All, arith}
use magic_mqtt.Prelude.Bits.{low_seven_bits}
use magic_mqtt.Encoding.Stream.{ok, IsByte, read_u8}
use magic_mqtt.Encoding.Varint.{read_loop, read_varint}

low_group_fits : (b m v : ℕ) → v < m → v + b % 128 * m < m * 0x80
low_group_fits b m v h = grind arith

-- `v < m` on every round, and a multiplier past 2^21 ends in an error.
read_loop-lt :
    (k old m v : ℕ) (r : List ℕ) (size : ℕ) (rest : List ℕ)
    → old < 256
    → All IsByte r
    → v < m
    → m ≤ 0x20_0000
    → read_loop k old m v r ≡ (ok size, rest)
    → size < 0x20_0000
unfolding read_loop read_u8
read_loop-lt zero old m v r size rest ho hr hv hm e = ground arith
read_loop-lt (suc k) old m v [] size rest ho hr hv hm e = ground (
  arith,
  low_seven_bits old,
  low_group_fits old m v,
  read_loop-lt k old (m * 0x80) (v + old % 128 * m) [] size rest,
)
read_loop-lt (suc k) old m v (b ∷ r) size rest ho hr hv hm e = ground (
  arith,
  low_seven_bits b,
  low_group_fits b m v,
  read_loop-lt k b (m * 0x80) (v + b % 128 * m) r size rest,
)

-- From a stream of bytes `ReadVarint` answers sizes below 2^21 only, also where the stream ends
-- inside the number.
pub read_varint-lt :
    (r : List ℕ) (size : ℕ) (rest : List ℕ)
    → All IsByte r
    → read_varint r ≡ (ok size, rest)
    → size < 0x20_0000
unfolding read_varint
read_varint-lt r size rest hr e =
    read_loop-lt 4 0 1 0 r size rest (omega arith) hr (omega arith) (omega arith) e

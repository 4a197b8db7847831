-- ===== src/Encoding/Varint/RoundTrip.antt =====
-- What `WriteVarint` writes, in plain arithmetic, and what `ReadVarint` makes of it.
use magic_mqtt.Prelude.{
  ℕ, zero, suc, ◌+◌, ◌*◌, ◌/◌, ◌%◌, ◌^◌, ◌<◌, ◌≤◌, ◌≡◌, List, [], ◌∷◌, ◌++◌, ltb, if◌then◌else◌,
  append_assoc, refl, ap, arith,
}
use magic_mqtt.Prelude.{◌∙◌, ◌↔◌, ◌≢◌}
use native.Mathlib.Decide.{dec_lt}
use native.Mathlib.Nat.{div-add-mod, pow-suc}
use magic_mqtt.Prelude.Bits.{low_seven_bits, top_bit, set_top_bit}
use magic_mqtt.Encoding.Stream.{ok, err, varint_overflow, read_u8}
use magic_mqtt.Encoding.Varint.{read_varint, read_loop, write_loop, write_varint}

-- The groups of seven bits of `n`, lowest first, in at most `k + 1` bytes.
unfoldable pub groups : ℕ → ℕ → List ℕ
groups zero n = n ∷ []
groups (suc k) n =
    let rest = groups k (n / 128) in if ltb n 128 then n ∷ [] else (n % 128 + 128) ∷ rest

write_loop_zero : (k i : ℕ) (w : List ℕ) → write_loop k 0 i w ≡ (i, w)
unfolding write_loop
write_loop_zero zero i w = refl
write_loop_zero (suc k) i w = refl

write_last :
    (k n i : ℕ) (w : List ℕ) → 0 < n → n < 128 → write_loop (suc k) n i w ≡ (i + 1, w ++ n ∷ [])
unfolding write_loop
write_last k n i w h m = ground (arith, write_loop_zero k (i + 1) (w ++ n ∷ []))

write_inner :
    (k n i : ℕ) (w : List ℕ)
    → 128 ≤ n
    → write_loop (suc k) n i w ≡ write_loop k (n / 128) (i + 1) (w ++ (n % 128 + 128) ∷ [])
unfolding write_loop
write_inner k n i w h = ground (arith, set_top_bit (n % 128))

-- With rounds enough the loop appends the groups of a size that is not 0.
write_loop-groups :
    (k n i : ℕ) (w : List ℕ)
    → 0 < n
    → n < 128 ^ suc k
    → (write_loop (suc k) n i w).1 ≡ w ++ groups k n
unfolding groups
write_loop-groups zero n i w h m = rw (write_last 0 n i w h (omega arith))
write_loop-groups (suc k) n i w h m = elim (dec_lt n 128) [
  | yes p ↦ rw (write_last (suc k) n i w h p) (ground arith)
  | no p ↦ rw (write_inner (suc k) n i w (omega arith)) (
      rw
        (write_loop-groups k (n / 128) (i + 1) (w ++ (n % 128 + 128) ∷ []) (omega arith)
          (omega arith))
        (ground (arith, append_assoc w ((n % 128 + 128) ∷ []) (groups k (n / 128)))))
]

-- One round of `ReadVarint`, on a last byte and on a byte with the top bit set.
read_last :
    (k old m v n : ℕ) (rest : List ℕ)
    → n < 128
    → m ≤ 0x4000
    → read_loop (suc k) old m v (n ∷ rest) ≡ (ok (v + n * m), rest)
unfolding read_loop read_u8
read_last k old m v n rest h hm = ground (arith, low_seven_bits n, top_bit n)

read_inner :
    (k old m v g : ℕ) (rest : List ℕ)
    → g < 128
    → m ≤ 0x4000
    → read_loop (suc k) old m v ((g + 128) ∷ rest)
      ≡ read_loop k (g + 128) (m * 0x80) (v + g * m) rest
unfolding read_loop read_u8
read_inner k old m v g rest h hm = ground (arith, low_seven_bits (g + 128), top_bit (g + 128))

-- The fourth round ends in an overflow, whatever the byte.
read_fourth :
    (k old m v b : ℕ) (rest : List ℕ)
    → 0x4000 < m
    → read_loop (suc k) old m v (b ∷ rest) ≡ (err varint_overflow, rest)
unfolding read_loop read_u8
read_fourth k old m v b rest hm = ground arith

pub read_varint_one : (b : ℕ) (rest : List ℕ) → b < 128 → read_varint (b ∷ rest) ≡ (ok b, rest)
unfolding read_varint
read_varint_one b rest h = read_last 3 0 1 0 b rest h (omega arith) ∙ ground arith

-- The size 0 takes no byte.
pub write_varint_zero : (w : List ℕ) → write_varint 0 w ≡ (0, w)
unfolding write_varint
write_varint_zero w = write_loop_zero 4 0 w

-- More rounds than the size needs change nothing.
groups_enough : (k n : ℕ) → n < 128 ^ suc k → groups (suc k) n ≡ groups k n
unfolding groups
groups_enough zero n h = ground arith
groups_enough (suc k) n h = ground (arith, groups_enough k (n / 128) (omega arith))

-- A size from 1 to 2^21 - 1 takes its groups, at most three bytes.
pub write_varint-groups :
    (n : ℕ) (w : List ℕ) → 0 < n → n < 0x20_0000 → (write_varint n w).1 ≡ w ++ groups 2 n
unfolding write_varint
write_varint-groups n w h m = write_loop-groups 3 n 0 w h (omega arith) ∙ rw (groups_enough 2 n m)

pow_pos : (k : ℕ) → 1 ≤ 128 ^ k
pow_pos zero = omega arith
pow_pos (suc k) = omega (arith, pow_pos k)

le-mul_pow : (m k : ℕ) → m ≤ m * 128 ^ k
le-mul_pow m k = grind (arith, pow_pos k)

mul_pow_suc : (m k : ℕ) → m * 0x80 * 128 ^ k ≡ m * 128 ^ suc k
mul_pow_suc m k = omega (arith, ap (λ (t : ℕ). m * t) (pow-suc 128 k))

-- The lowest group and the rest, both multiplied by `m`.
split_group : (n m : ℕ) → n % 128 * m + n / 128 * (m * 0x80) ≡ n * m
split_group n m = omega (arith, ap (λ (t : ℕ). t * m) (div-add-mod n 128))

-- The loop of `ReadVarint` reads the groups of a size that fits its multiplier.
read_loop-groups :
    (k old m v n : ℕ) (rest : List ℕ)
    → n < 128 ^ suc k
    → m * 128 ^ k ≤ 0x4000
    → read_loop (suc (suc k)) old m v (groups k n ++ rest) ≡ (ok (v + n * m), rest)
unfolding groups
read_loop-groups zero old m v n rest h hm = read_last 1 old m v n rest (omega arith) (omega arith)
read_loop-groups (suc k) old m v n rest h hm = elim (dec_lt n 128) [
  | yes p ↦ ground (arith, read_last (suc (suc k)) old m v n rest, le-mul_pow m (suc k))
  | no p ↦ ground (
    arith,
    le-mul_pow m (suc k),
    split_group n m,
    read_inner (suc (suc k)) old m v (n % 128) (groups k (n / 128) ++ rest),
    read_loop-groups k (n % 128 + 128) (m * 0x80) (v + n % 128 * m) (n / 128) rest (omega arith)
        (omega (arith, mul_pow_suc m k)),
  )
]

-- The groups of a size that is not past three bytes are read back.
pub read_varint-groups :
    (n : ℕ) (rest : List ℕ) → n < 0x20_0000 → read_varint (groups 2 n ++ rest) ≡ (ok n, rest)
unfolding read_varint
read_varint-groups n rest h = read_loop-groups 2 0 1 0 n rest h (omega arith) ∙ ground arith

-- `ReadVarint` reads back every size from 1 to 2^21 - 1 that `WriteVarint` wrote, and leaves what
-- follows it in the stream.
pub read_varint-write_varint :
    (n : ℕ) (rest : List ℕ)
    → 0 < n
    → n < 0x20_0000
    → read_varint ((write_varint n []).1 ++ rest) ≡ (ok n, rest)
read_varint-write_varint n rest h m =
    rw (write_varint-groups n [] h m) (read_varint-groups n rest m)

groups_four :
    (n : ℕ)
    → 0x20_0000 ≤ n
    → groups 3 n
      ≡ (n % 128 + 128)
        ∷ (n / 128 % 128 + 128)
        ∷ (n / 128 / 128 % 128 + 128)
        ∷ (n / 128 / 128 / 128)
        ∷ []
unfolding groups
groups_four n h = ground arith

read_four :
    (n : ℕ) (rest : List ℕ)
    → 0x20_0000 ≤ n
    → read_loop 4 0 1 0 (groups 3 n ++ rest) ≡ (err varint_overflow, rest)
read_four n rest h = rw (groups_four n h) (
    read_inner 3 0 1 0 (n % 128) _ (omega arith) (omega arith)
    ∙ read_inner 2 _ _ _ (n / 128 % 128) _ (omega arith) (omega arith)
    ∙ read_inner 1 _ _ _ (n / 128 / 128 % 128) _ (omega arith) (omega arith)
    ∙ read_fourth 0 _ _ _ _ rest (omega arith))

groups-ne-nil : (k n : ℕ) → groups k n ≢ []
unfolding groups
groups-ne-nil zero n e = cc
groups-ne-nil (suc k) n e = ground arith

-- A size from 2^21 to 2^28 - 1 is written in four bytes, and reading those is an overflow error.
pub read_varint_four :
    (n : ℕ) (rest : List ℕ)
    → 0x20_0000 ≤ n
    → n < 0x1000_0000
    → read_varint ((write_varint n []).1 ++ rest) ≡ (err varint_overflow, rest)
unfolding read_varint write_varint
read_varint_four n rest h m = rw (write_loop-groups 3 n 0 [] (omega arith) m) (read_four n rest h)

-- Below 2^28, the size 0 is written as no byte at all, and every other size as one byte at least.
pub write_varint_nil : (n : ℕ) → n < 0x1000_0000 → ((write_varint n []).1 ≡ []) ↔ (n ≡ 0)
unfolding write_varint
write_varint_nil n m = (
  λ e. elim (dec_lt 0 n) [
    | yes h ↦ absurd (groups-ne-nil 3 n (rw (write_loop-groups 3 n 0 [] h m) at e))
    | no h ↦ omega arith
  ],
  λ e. rw e (ap (λ (p : ℕ × List ℕ). p.1) (write_loop_zero 4 0 [])),
)

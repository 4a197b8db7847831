-- ===== src/Prelude/Bits.antt =====
-- Masks and flags on one byte as arithmetic: tables of at most 256 entries, checked by evaluation.
use Prim.Native.Nat.{ℕ, zero, suc, ◌+◌, ◌*◌, ◌/◌, ◌%◌, ◌<◌, bit_and, bit_or}
use mathlib.Core.Path.{◌≡◌, refl}
use mathlib.Core.Logic.{◌≢◌, ◌⊎◌, inl, inr}
use mathlib.Core.Bool.{Bool, true, ◌&&◌}
use native.Mathlib.Omega.{arith}
use magic_mqtt.Prelude.Tests.{◌==◌, ==_iff, Bool-cases}

and_left : (a b : Bool) → (a && b) ≡ true → a ≡ true
and_left a b e = ground arith

and_right : (a b : Bool) → (a && b) ≡ true → b ≡ true
and_right a b e = ground arith

==_cases : (a b : ℕ) → (a ≡ b) ⊎ (a ≢ b)
==_cases a b = elim (Bool-cases (a == b)) [
  | inl e ↦ inl ((==_iff a b).0 e)
  | inr e ↦ inr (ground arith)
]

-- A test holds from 0 up to a bound.
unfoldable pub holds_up_to : (ℕ → Bool) → ℕ → Bool
holds_up_to test zero = true
holds_up_to test (suc last) = holds_up_to test last && test last

pub holds_up_to_at :
    (test : ℕ → Bool) (bound b : ℕ) → b < bound → holds_up_to test bound ≡ true → test b ≡ true
unfolding holds_up_to
holds_up_to_at test zero b low table = absurd (omega arith)
holds_up_to_at test (suc last) b low table = elim (==_cases b last) [
  | inl e ↦ rw e (and_right (holds_up_to test last) (test last) table)
  | inr far ↦
      holds_up_to_at test last b (omega arith) (and_left (holds_up_to test last) (test last) table)
]

-- Two functions agree below `n` when a table says so.
pub agree_below :
    (f g : ℕ → ℕ) (n : ℕ) → holds_up_to (λ x. f x == g x) n ≡ true → (x : ℕ) → x < n → f x ≡ g x
agree_below f g n h x lt = (==_iff _ _).0 (holds_up_to_at (λ x. f x == g x) n x lt h)

pub low_seven_bits : (b : ℕ) → b < 256 → bit_and b 0x7f ≡ b % 128
unfolding holds_up_to
low_seven_bits = agree_below (λ b. bit_and b 0x7f) (λ b. b % 128) 256 refl

pub top_bit : (b : ℕ) → b < 256 → bit_and b 0x80 ≡ b / 128 * 128
unfolding holds_up_to
top_bit = agree_below (λ b. bit_and b 0x80) (λ b. b / 128 * 128) 256 refl

pub set_top_bit : (b : ℕ) → b < 128 → bit_or b 0x80 ≡ b + 128
unfolding holds_up_to
set_top_bit = agree_below (λ b. bit_or b 0x80) (λ b. b + 128) 128 refl

-- ===== src/Encoding/Stream.antt =====
-- The byte streams under encoding/. A reader is the list of the bytes that are still to come; at its
-- end every read answers EOF. A writer is the list of the bytes written, and takes every byte, as a
-- bytes.Buffer does. `err` is Go's error result, `panic` a run-time panic, and `stuck` is no Go
-- value: a loop of the model ran out of fuel.
pub mod Ends
pub mod Yields
use magic_mqtt.Prelude.{ℕ, ◌+◌, ◌*◌, ◌/◌, ◌%◌, ◌<◌, ◌≡◌, List, [], ◌∷◌, ◌++◌, take, drop, arith}

pub data Error : Type 0 where
  eof varint_overflow payload_limit not_supported crupted_data length_overs offset_overs : Error
  publish_length : Error

pub data Result {ℓ} (A : Type ℓ) : Type ℓ where
  ok : A → Result A
  err : Error → Result A
  panic : Result A
  stuck : Result A

-- A read leaves the rest of the stream, also when it fails.
abbrev pub Read {ℓ} : Type ℓ → Type ℓ
Read A = List ℕ → Result A × List ℕ

abbrev pub bind {ℓ κ} :
    {A : Type ℓ} {B : Type κ} → Result A × List ℕ → (A → Read B) → Result B × List ℕ
bind (ok a, r) f = f a r
bind (err e, r) f = (err e, r)
bind (panic, r) f = (panic, r)
bind (stuck, r) f = (stuck, r)

infixl 5 ◌>>=◌ ◌>>◌
abbrev pub ◌>>=◌ {ℓ κ} : {A : Type ℓ} {B : Type κ} → Read A → (A → Read B) → Read B
◌>>=◌ m f r = bind (m r) f

abbrev pub ◌>>◌ {ℓ} : {B : Type ℓ} → Read (Unit {0}) → Read B → Read B
m >> k = m >>= λ _. k

abbrev pub pure {ℓ} : {A : Type ℓ} → A → Read A
pure a r = (ok a, r)

abbrev pub fail {ℓ} : {A : Type ℓ} → Error → Read A
fail e r = (err e, r)

-- `binary.Read(reader, BigEndian, &x)` on a uint8 whose error is returned.
unfoldable pub read_byte : Read ℕ
read_byte [] = (err eof, [])
read_byte (b ∷ r) = (ok b, r)

-- A uint8 and a uint16 at the front of some bytes; where they do not reach, `x` keeps its value.
unfoldable pub u8_at : ℕ → List ℕ → ℕ
u8_at old [] = old
u8_at old (b ∷ r) = b

unfoldable pub u16_at : ℕ → List ℕ → ℕ
u16_at old [] = old
u16_at old (b ∷ []) = old
u16_at old (b ∷ c ∷ r) = b * 256 + c

-- `binary.Read` where the error is dropped. A single byte left over is taken by a uint16.
unfoldable pub read_u8 : ℕ → Read ℕ
unfolding u8_at
read_u8 old r = (ok (u8_at old r), drop 1 r)

unfoldable pub read_u16 : ℕ → Read ℕ
unfolding u16_at
read_u16 old r = (ok (u16_at old r), drop 2 r)

-- `io.CopyN(buffer, reader, n)`, error dropped: at most `n` bytes.
unfoldable pub copy_n : ℕ → Read (List ℕ)
copy_n n r = (ok (take n r), drop n r)

abbrev pub write_u8 : ℕ → List ℕ → List ℕ
write_u8 v w = w ++ v ∷ []

abbrev pub write_u16 : ℕ → List ℕ → List ℕ
write_u16 v w = w ++ v / 256 ∷ v % 256 ∷ []

abbrev pub IsByte : ℕ → Type 0
IsByte b = b < 256

abbrev pub IsU16 : ℕ → Type 0
IsU16 v = v < 65536

-- A run-time panic, and fuel that ran out.
abbrev pub panics {ℓ} : {A : Type ℓ} → Read A
panics r = (panic, r)

abbrev pub out_of_fuel {ℓ} : {A : Type ℓ} → Read A
out_of_fuel r = (stuck, r)

-- What `write_u16` puts down, `u16_at` and `read_u16` read back.
pub u16_at_pair : (old v : ℕ) (r : List ℕ) → u16_at old ((v / 256) ∷ (v % 256) ∷ r) ≡ v
unfolding u16_at
u16_at_pair old v r = omega arith

pub read_u16_pair : (old v : ℕ) (r : List ℕ) → read_u16 old ((v / 256) ∷ (v % 256) ∷ r) ≡ (ok v, r)
unfolding read_u16
read_u16_pair old v r = ground arith

-- ===== src/Encoding/Stream/Ends.antt =====
-- Reads that end, whatever the stream: a rule for each way to build one.
use magic_mqtt.Prelude.{ℕ, ◌≡◌, ◌≢◌, Bool, true, false, refl, List, [], ◌∷◌, if◌then◌else◌}
use magic_mqtt.Encoding.Stream.{
  Result, Read, Error, ◌>>=◌, bind, ok, err, panic, stuck, pure, fail, panics, read_byte, read_u8,
  read_u16, copy_n,
}

-- A read that ends from every stream.
pub record Ends {ℓ} {A : Type ℓ} (m : Read A) : Type ℓ where
  pub at : (r : List ℕ) → (m r).0 ≢ stuck

module _ {ℓ κ} {A : Type ℓ} {B : Type κ} where
  pub bind-Ends :
      (p : Result A × List ℕ) (f : A → Read B)
      → p.0 ≢ stuck
      → ((a : A) → Ends (f a))
      → (bind p f).0 ≢ stuck
  bind-Ends (ok a, r) f h k = (k a).at r
  bind-Ends (err e, r) f h k = λ q. cc
  bind-Ends (panic, r) f h k = λ q. cc
  bind-Ends (stuck, r) f h k = absurd (h refl)

  pub Ends-bind : (m : Read A) (f : A → Read B) → Ends m → ((a : A) → Ends (f a)) → Ends (m >>= f)
  Ends-bind m f h k = record { at = λ r. bind-Ends (m r) f (h.at r) k }

module _ {ℓ} {A : Type ℓ} where
  pub Ends-pure : (a : A) → Ends (pure a)
  Ends-pure a = record { at = λ r e. cc }

  pub Ends-fail : (e : Error) → Ends (fail {A = A} e)
  Ends-fail e = record { at = λ r p. cc }

  pub Ends-panics : Ends (panics {A = A})
  Ends-panics = record { at = λ r e. cc }

  pub Ends-if :
      (b : Bool) (m n : Read A)
      → (b ≡ true → Ends m)
      → (b ≡ false → Ends n)
      → Ends (if b then m else n)
  Ends-if true m n h k = h refl
  Ends-if false m n h k = k refl

pub Ends-read_byte : Ends read_byte
unfolding read_byte
Ends-read_byte = record { at = elim [ [] ↦ λ e. cc | b ∷ r ↦ λ e. cc ] }

pub Ends-read_u8 : (old : ℕ) → Ends (read_u8 old)
unfolding read_u8
Ends-read_u8 old = record { at = λ r e. cc }

pub Ends-read_u16 : (old : ℕ) → Ends (read_u16 old)
unfolding read_u16
Ends-read_u16 old = record { at = λ r e. cc }

pub Ends-copy_n : (n : ℕ) → Ends (copy_n n)
unfolding copy_n
Ends-copy_n n = record { at = λ r e. cc }

pub ruleset ends_rules = (
  Ends-bind, Ends-pure, Ends-fail, Ends-panics, Ends-if, Ends-read_byte, Ends-read_u8,
  Ends-read_u16, Ends-copy_n,
)

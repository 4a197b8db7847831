-- ===== src/Encoding/Stream/Yields.antt =====
-- What a read yields where it succeeds: a rule for each way to build one.
use magic_mqtt.Prelude.{◌≡◌, ℕ, Bool, true, false, refl, subst, List, if◌then◌else◌}
use magic_mqtt.Encoding.Stream.{
  Result, Read, Error, ◌>>=◌, bind, ok, err, panic, stuck, pure, fail, panics,
}

-- Every value that the read yields is as `P` says.
pub record Yields {ℓ κ} {A : Type ℓ} (P : A → Type κ) (m : Read A) : Type (ℓ ⊔ κ) where
  pub at : (r : List ℕ) (a : A) → (m r).0 ≡ ok a → P a

module _ {ℓ κ ℓ' κ'} {A : Type ℓ} {B : Type κ} (Q : A → Type ℓ') (P : B → Type κ') where
  bind-Yields :
      (p : Result A × List ℕ) (f : A → Read B)
      → ((a : A) → p.0 ≡ ok a → Q a)
      → ((a : A) → Q a → Yields P (f a))
      → (b : B) → (bind p f).0 ≡ ok b
      → P b
  bind-Yields (ok a, r) f h k b e = (k a (h a refl)).at r b e
  bind-Yields (err x, r) f h k b e = cc
  bind-Yields (panic, r) f h k b e = cc
  bind-Yields (stuck, r) f h k b e = cc

  pub Yields-then :
      (m : Read A) (f : A → Read B)
      → Yields Q m
      → ((a : A) → Q a → Yields P (f a))
      → Yields P (m >>= f)
  Yields-then m f h k = record { at = λ r. bind-Yields (m r) f (h.at r) k }

module _ {ℓ κ κ'} {A : Type ℓ} {B : Type κ} (P : B → Type κ') where
  pub Yields-bind : (m : Read A) (f : A → Read B) → ((a : A) → Yields P (f a)) → Yields P (m >>= f)
  Yields-bind m f k = Yields-then (λ a. Unit {0}) P m f (record { at = λ r a e. tt }) (λ a u. k a)

module _ {ℓ κ} {A : Type ℓ} (P : A → Type κ) where
  pub Yields-pure : (a : A) → P a → Yields P (pure a)
  Yields-pure a p = record { at = λ r b e. let q : a ≡ b = cc e in subst P q p }

  pub Yields-fail : (e : Error) → Yields P (fail e)
  Yields-fail e = record { at = λ r a p. cc }

  pub Yields-panics : Yields P panics
  Yields-panics = record { at = λ r a p. cc }

  pub Yields-if :
      (b : Bool) (m n : Read A)
      → (b ≡ true → Yields P m)
      → Yields P n
      → Yields P (if b then m else n)
  Yields-if true m n h k = h refl
  Yields-if false m n h k = k

pub ruleset yields_rules = (Yields-bind, Yields-pure, Yields-fail, Yields-panics, Yields-if)

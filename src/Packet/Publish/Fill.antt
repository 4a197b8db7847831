-- ===== src/Packet/Publish/Fill.antt =====
-- The read loop of `Publish.decode` of encoding/message/publish.go, and the pace of the connection.
use native.Mathlib.Nat.{suc-sub-suc}
use magic_mqtt.Prelude.{
  ℕ, zero, suc, ◌-◌, ◌≤◌, ◌<◌, ◌≡◌, ◌∙◌, refl, ap, List, [], ◌∷◌, ◌++◌, length, take, drop,
  length-drop, append-nil, append_assoc, arith,
}
use magic_mqtt.Encoding.Stream.{ok, err, eof}
use magic_mqtt.Packet.Publish.{chunk, fill}

module _ {ℓ} {A : Type ℓ} where
  take_nil : (n : ℕ) → take {A = A} n [] ≡ []
  take_nil zero = refl
  take_nil (suc n) = refl

  drop_nil : (n : ℕ) → drop {A = A} n [] ≡ []
  drop_nil zero = refl
  drop_nil (suc n) = refl

  -- Cutting in two steps.
  take_add : (n k : ℕ) (r : List A) → n ≤ k → take n r ++ take (k - n) (drop n r) ≡ take k r
  take_add zero k r h = ap (λ (j : ℕ). take j r) (omega arith)
  take_add (suc n) zero r h = absurd (omega arith)
  take_add (suc n) (suc k) [] h = take_nil (suc k - suc n)
  take_add (suc n) (suc k) (x ∷ r) h =
      rw suc-sub-suc (ap (λ (l : List A). x ∷ l) (take_add n k r (omega arith)))

  drop_add : (n k : ℕ) (r : List A) → n ≤ k → drop (k - n) (drop n r) ≡ drop k r
  drop_add zero k r h = ap (λ (j : ℕ). drop j r) (omega arith)
  drop_add (suc n) zero r h = absurd (omega arith)
  drop_add (suc n) (suc k) [] h = drop_nil (suc k - suc n)
  drop_add (suc n) (suc k) (x ∷ r) h = rw suc-sub-suc (drop_add n k r (omega arith))

  cut_twice :
      (n k : ℕ) (buffer r : List A)
      → n ≤ k
      → ◌≡◌ {A = List A × List A}
          ((buffer ++ take n r) ++ take (k - n) (drop n r), drop (k - n) (drop n r))
          (buffer ++ take k r, drop k r)
  cut_twice n k buffer r h = rw (append_assoc, take_add n k r h, drop_add n k r h)

chunk_bounds :
    (pace : ℕ → ℕ) (wanted b : ℕ) (r : List ℕ)
    → (1 ≤ chunk pace (suc wanted) (b ∷ r))
      × (chunk pace (suc wanted) (b ∷ r) ≤ suc wanted)
      × (chunk pace (suc wanted) (b ∷ r) ≤ length (b ∷ r))
unfolding chunk
chunk_bounds pace wanted b r = omega arith

-- Where the stream holds what is wanted, the loop takes exactly that.
pub fill_takes :
    (pace : ℕ → ℕ) (fuel wanted : ℕ) (buffer r : List ℕ)
    → wanted ≤ fuel
    → wanted ≤ length r
    → fill pace fuel wanted buffer r ≡ (ok (buffer ++ take wanted r), drop wanted r)
unfolding fill
fill_takes pace fuel zero buffer r h m = rw append-nil
fill_takes pace zero (suc wanted) buffer r h m = absurd (omega arith)
fill_takes pace (suc fuel) (suc wanted) buffer [] h m = absurd (omega arith)
fill_takes pace (suc fuel) (suc wanted) buffer (b ∷ r) h m =
    let l : List ℕ = b ∷ r in
    let n = chunk pace (suc wanted) l in
    let (low, high, there) = chunk_bounds pace wanted b r in
    fill_takes pace fuel (suc wanted - n) (buffer ++ take n l) (drop n l) (omega arith)
      (omega (arith, length-drop n l))
    ∙ ap (λ (p : List ℕ × List ℕ). (ok p.0, p.1)) (cut_twice n (suc wanted) buffer l high)

-- Where it does not, the loop takes everything and fails.
pub fill_ends :
    (pace : ℕ → ℕ) (fuel wanted : ℕ) (buffer r : List ℕ)
    → wanted ≤ fuel
    → length r < wanted
    → fill pace fuel wanted buffer r ≡ (err eof, [])
unfolding fill
fill_ends pace fuel zero buffer r h m = absurd (omega arith)
fill_ends pace zero (suc wanted) buffer r h m = absurd (omega arith)
fill_ends pace (suc fuel) (suc wanted) buffer [] h m = refl
fill_ends pace (suc fuel) (suc wanted) buffer (b ∷ r) h m =
    let l : List ℕ = b ∷ r in
    let n = chunk pace (suc wanted) l in
    let (low, high, there) = chunk_bounds pace wanted b r in
    fill_ends pace fuel (suc wanted - n) (buffer ++ take n l) (drop n l) (omega arith)
      (omega (arith, length-drop n l))

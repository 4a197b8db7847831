-- ===== src/Sessions/StringMap.antt =====
-- The maps with string keys of sessions/: the list of their entries, in the order of a walk.
use magic_mqtt.Prelude.{ℕ, ◌≡◌, refl, Option, none, some, List, [], ◌∷◌, if◌then◌else◌, arith}
use magic_mqtt.Topics.Level.{same, same_iff}

abbrev pub StringMap {ℓ} : Type ℓ → Type ℓ
StringMap A = List (List ℕ × A)

module _ {ℓ} {A : Type ℓ} where
  -- `v, ok := m[key]`
  unfoldable pub lookup : StringMap A → List ℕ → Option A
  lookup [] key = none
  lookup ((k, v) ∷ rest) key = if same k key then some v else lookup rest key

  -- `m[key] = v`
  unfoldable pub store : StringMap A → List ℕ → A → StringMap A
  store [] key v = (key, v) ∷ []
  store ((k, w) ∷ rest) key v = if same k key then (k, v) ∷ rest else (k, w) ∷ store rest key v

  -- `delete(m, key)`
  unfoldable pub delete : StringMap A → List ℕ → StringMap A
  delete [] key = []
  delete ((k, v) ∷ rest) key =
      let left = delete rest key in if same k key then left else (k, v) ∷ left

  pub lookup-store :
      (m : StringMap A) (key k : List ℕ) (v : A)
      → lookup (store m key v) k ≡ (if same key k then some v else lookup m k)
  unfolding lookup store
  lookup-store [] key k v = refl
  lookup-store ((j, w) ∷ rest) key k v =
      ground (arith, lookup-store rest key k v, same_iff j key, same_iff j k, same_iff key k)

  pub lookup-delete :
      (m : StringMap A) (key k : List ℕ)
      → lookup (delete m key) k ≡ (if same key k then none else lookup m k)
  unfolding lookup delete
  lookup-delete [] key k = ground arith
  lookup-delete ((j, w) ∷ rest) key k =
      ground (arith, lookup-delete rest key k, same_iff j key, same_iff j k, same_iff key k)

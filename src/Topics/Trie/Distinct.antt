-- ===== src/Topics/Trie/Distinct.antt =====
-- Level names that a map of a node holds once, in every node of a tree.
use magic_mqtt.Prelude.{◌≡◌, refl, Bool-cases, inl, inr, none, some, arith}
use mathlib.Core.Path.{subst}
use magic_mqtt.Topics.Level.{Level, same, same_iff}
use magic_mqtt.Topics.Trie.{Trie, Nodes, node, nil, entry, get, put, remove}
use magic_mqtt.Topics.Trie.Laws.{get-put, get-remove}

mutual
  pub data IsDistinct {ℓ} {A : Type ℓ} : Trie A → Type ℓ where
    at_node : (a : A) (ns : Nodes A) → AreDistinct ns → IsDistinct (node a ns)

  pub data AreDistinct {ℓ} {A : Type ℓ} : Nodes A → Type ℓ where
    at_nil : AreDistinct nil
    at_entry :
        (k : Level) (n : Trie A) (ns : Nodes A)
        → get ns k ≡ none
        → IsDistinct n
        → AreDistinct ns
        → AreDistinct (entry k n ns)

module _ {ℓ} {A : Type ℓ} where
  pub get-IsDistinct :
      {ns : Nodes A} (ds : AreDistinct ns) (l : Level) (n : Trie A)
      → get ns l ≡ some n
      → IsDistinct n
  unfolding get
  get-IsDistinct at_nil l n e = cc
  get-IsDistinct (at_entry k m ns g d ds) l n e = elim (Bool-cases (same k l)) [
    | inl p ↦ let q : some m ≡ some n = rw p at e in let r : m ≡ n = cc q in subst IsDistinct r d
    | inr p ↦ get-IsDistinct ds l n (rw p at e)
  ]

  pub put-AreDistinct :
      {ns : Nodes A} (ds : AreDistinct ns) (l : Level) (t : Trie A)
      → IsDistinct t
      → AreDistinct (put ns l t)
  unfolding put
  put-AreDistinct at_nil l t d = at_entry l t nil (unfold get in refl) d at_nil
  put-AreDistinct (at_entry k m ns g dm ds) l t d = elim (Bool-cases (same k l)) [
    | inl p ↦ rw p (at_entry k t ns g d ds)
    | inr p ↦ rw p (
        at_entry k m (put ns l t) (ground (arith, get-put ns l k t, same_iff l k, same_iff k l)) dm
          (put-AreDistinct ds l t d))
  ]

  pub remove-AreDistinct :
      {ns : Nodes A} (ds : AreDistinct ns) (l : Level) → AreDistinct (remove ns l)
  unfolding remove
  remove-AreDistinct at_nil l = at_nil
  remove-AreDistinct (at_entry k m ns g dm ds) l = elim (Bool-cases (same k l)) [
    | inl p ↦ rw p (remove-AreDistinct ds l)
    | inr p ↦ rw p (
        at_entry k m (remove ns l) (ground (arith, get-remove ns l k)) dm (remove-AreDistinct ds l))
  ]

-- ===== src/Topics/Subscription/Wellformed.antt =====
-- Level names in the maps of a tree, under `sinsert` and `sremove` of topics/memtopics.go.
use magic_mqtt.Prelude.{
  ℕ, zero, suc, ◌≡◌, refl, Bool, true, false, Option, Option-cases, none, some, inl, inr, List, [],
  ◌∷◌, if◌then◌else◌,
}
use magic_mqtt.Topics.Level.{Level, Outcome, ok, err, stuck, next_topic_level}
use magic_mqtt.Topics.Trie.{Nodes, node, nil, get, put, remove}
use magic_mqtt.Topics.Trie.Distinct.{
  IsDistinct, AreDistinct, at_node, at_nil, get-IsDistinct, put-AreDistinct, remove-AreDistinct,
}
use magic_mqtt.Topics.Value.{Value, nothing}
use magic_mqtt.Topics.Subscription.{
  SNode, Subs, child_or_new, sinsert, remove_sub, leaf_result, remove_leaf, is_unused, after_remove,
  sremove,
}

child-IsDistinct :
    {kids : Nodes Subs} → AreDistinct kids → (l : Level) → IsDistinct (child_or_new (get kids l))
child-IsDistinct {kids} ds l = by_option (get kids l) refl
  where
    by_option : (o : Option SNode) → get kids l ≡ o → IsDistinct (child_or_new o)
    by_option none e = at_node [] nil at_nil
    by_option (some n) e = get-IsDistinct ds l n e

-- Whatever the topic, and whether or not it fails, an insertion keeps the maps free of repetition.
pub sinsert-IsDistinct :
    (fuel : ℕ) (t : SNode) (topic : List ℕ) (qos : ℕ) (sub : Value)
    → IsDistinct t
    → IsDistinct (sinsert fuel t topic qos sub).1
unfolding sinsert
sinsert-IsDistinct fuel (node subs kids) [] qos sub (at_node _ _ ds) = at_node _ kids ds
sinsert-IsDistinct zero t (c ∷ r) qos sub d = d
sinsert-IsDistinct (suc fuel) (node subs kids) (c ∷ r) qos sub (at_node _ _ ds) =
    by_level (λ n rem. sinsert-IsDistinct fuel n rem qos sub) (next_topic_level (c ∷ r)) refl
  where
    by_level :
        ((n : SNode) (rem : List ℕ) → IsDistinct n → IsDistinct (sinsert fuel n rem qos sub).1)
        → (o : Outcome (Level × List ℕ)) → next_topic_level (c ∷ r) ≡ o
        → IsDistinct (sinsert (suc fuel) (node subs kids) (c ∷ r) qos sub).1
    by_level ih (ok (l, rem)) e =
        rw (e, sinsert) (at_node subs _ (put-AreDistinct ds l _ (ih _ rem (child-IsDistinct ds l))))
    by_level ih (err x) e = rw (e, sinsert) (at_node subs kids ds)
    by_level ih stuck e = rw (e, sinsert) (at_node subs kids ds)

leaf-IsDistinct :
    (subs : Subs) (kids : Nodes Subs) (sub : Value)
    → AreDistinct kids
    → IsDistinct (remove_leaf subs kids sub).1
leaf-IsDistinct subs kids nothing ds = at_node [] kids ds
leaf-IsDistinct subs kids sub ds = by_option (remove_sub sub subs)
  where
    by_option : (o : Option Subs) → IsDistinct (leaf_result subs kids o).1
    by_option none = at_node subs kids ds
    by_option (some r) = at_node r kids ds

after-IsDistinct :
    (subs : Subs) (kids : Nodes Subs) (l : Level) (p : Outcome (Unit {0}) × SNode)
    → AreDistinct kids
    → IsDistinct p.1
    → IsDistinct (after_remove subs kids l p).1
after-IsDistinct subs kids l (ok u, n) ds d = by_test (is_unused n)
  where
    by_test : (b : Bool) → IsDistinct (node subs (if b then remove kids l else put kids l n))
    by_test true = at_node subs _ (remove-AreDistinct ds l)
    by_test false = at_node subs _ (put-AreDistinct ds l n d)
after-IsDistinct subs kids l (err x, n) ds d = at_node subs _ (put-AreDistinct ds l n d)
after-IsDistinct subs kids l (stuck, n) ds d = at_node subs kids ds

-- So does a removal.
pub sremove-IsDistinct :
    (fuel : ℕ) (t : SNode) (topic : List ℕ) (sub : Value)
    → IsDistinct t
    → IsDistinct (sremove fuel t topic sub).1
unfolding sremove
sremove-IsDistinct fuel (node subs kids) [] sub (at_node _ _ ds) = leaf-IsDistinct subs kids sub ds
sremove-IsDistinct zero t (c ∷ r) sub d = d
sremove-IsDistinct (suc fuel) (node subs kids) (c ∷ r) sub (at_node _ _ ds) =
    by_level (λ n rem. sremove-IsDistinct fuel n rem sub) (next_topic_level (c ∷ r)) refl
  where
    by_level :
        ((n : SNode) (rem : List ℕ) → IsDistinct n → IsDistinct (sremove fuel n rem sub).1)
        → (o : Outcome (Level × List ℕ)) → next_topic_level (c ∷ r) ≡ o
        → IsDistinct (sremove (suc fuel) (node subs kids) (c ∷ r) sub).1
    by_level ih (ok (l, rem)) e =
        rw (e, sremove)
          (elim (Option-cases (get kids l)) [
            | inl g ↦ rw g (at_node subs kids ds)
            | inr (n, g) ↦
                rw g (after-IsDistinct subs kids l _ ds (ih n rem (get-IsDistinct ds l n g)))
          ])
    by_level ih (err x) e = rw (e, sremove) (at_node subs kids ds)
    by_level ih stuck e = rw (e, sremove) (at_node subs kids ds)

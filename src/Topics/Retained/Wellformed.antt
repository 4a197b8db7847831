-- ===== src/Topics/Retained/Wellformed.antt =====
-- Level names in the maps of a tree, under `rinsertOrUpdate` and `rremove` of topics/memtopics.go.
use magic_mqtt.Prelude.{
  ℕ, zero, suc, ◌≡◌, refl, Bool, true, false, Option, Option-cases, none, some, inl, inr, List, [],
  ◌∷◌, if◌then◌else◌,
}
use magic_mqtt.Packet.Publish.{Publish}
use magic_mqtt.Topics.Level.{Level, Outcome, ok, err, stuck, next_topic_level}
use magic_mqtt.Topics.Trie.{Nodes, node, nil, get, put, remove, nodes, is_empty}
use magic_mqtt.Topics.Trie.Distinct.{
  IsDistinct, AreDistinct, at_node, at_nil, get-IsDistinct, put-AreDistinct, remove-AreDistinct,
}
use magic_mqtt.Topics.Retained.{RNode, rchild_or_new, rinsert_or_update, after_rremove, rremove}

rchild-IsDistinct :
    {kids : Nodes (Option Publish)}
    → AreDistinct kids
    → (l : Level) → IsDistinct (rchild_or_new (get kids l))
rchild-IsDistinct {kids} ds l = by_option (get kids l) refl
  where
    by_option : (o : Option RNode) → get kids l ≡ o → IsDistinct (rchild_or_new o)
    by_option none e = at_node none nil at_nil
    by_option (some n) e = get-IsDistinct ds l n e

-- Whatever the topic, and whether or not it fails, an update keeps the maps free of repetition.
pub rinsert_or_update-IsDistinct :
    (fuel : ℕ) (t : RNode) (topic : List ℕ) (msg : Publish)
    → IsDistinct t
    → IsDistinct (rinsert_or_update fuel t topic msg).1
unfolding rinsert_or_update
rinsert_or_update-IsDistinct fuel (node old kids) [] msg (at_node _ _ ds) =
    at_node (some msg) kids ds
rinsert_or_update-IsDistinct zero t (c ∷ r) msg d = d
rinsert_or_update-IsDistinct (suc fuel) (node old kids) (c ∷ r) msg (at_node _ _ ds) =
    by_level (λ n rem. rinsert_or_update-IsDistinct fuel n rem msg) (next_topic_level (c ∷ r)) refl
  where
    by_level :
        ((n : RNode) (rem : List ℕ)
          → IsDistinct n
          → IsDistinct (rinsert_or_update fuel n rem msg).1)
        → (o : Outcome (Level × List ℕ)) → next_topic_level (c ∷ r) ≡ o
        → IsDistinct (rinsert_or_update (suc fuel) (node old kids) (c ∷ r) msg).1
    by_level ih (ok (l, rem)) e =
        rw (e, rinsert_or_update)
          (at_node old _ (put-AreDistinct ds l _ (ih _ rem (rchild-IsDistinct ds l))))
    by_level ih (err x) e = rw (e, rinsert_or_update) (at_node old kids ds)
    by_level ih stuck e = rw (e, rinsert_or_update) (at_node old kids ds)

after-IsDistinct :
    (old : Option Publish) (kids : Nodes (Option Publish)) (l : Level)
    (p : Outcome (Unit {0}) × RNode)
    → AreDistinct kids
    → IsDistinct p.1
    → IsDistinct (after_rremove old kids l p).1
after-IsDistinct old kids l (ok u, n) ds d = by_test (is_empty (nodes n))
  where
    by_test : (b : Bool) → IsDistinct (node old (if b then remove kids l else put kids l n))
    by_test true = at_node old _ (remove-AreDistinct ds l)
    by_test false = at_node old _ (put-AreDistinct ds l n d)
after-IsDistinct old kids l (err x, n) ds d = at_node old _ (put-AreDistinct ds l n d)
after-IsDistinct old kids l (stuck, n) ds d = at_node old kids ds

-- So does a removal.
pub rremove-IsDistinct :
    (fuel : ℕ) (t : RNode) (topic : List ℕ) → IsDistinct t → IsDistinct (rremove fuel t topic).1
unfolding rremove
rremove-IsDistinct fuel (node old kids) [] (at_node _ _ ds) = at_node none kids ds
rremove-IsDistinct zero t (c ∷ r) d = d
rremove-IsDistinct (suc fuel) (node old kids) (c ∷ r) (at_node _ _ ds) =
    by_level (λ n rem. rremove-IsDistinct fuel n rem) (next_topic_level (c ∷ r)) refl
  where
    by_level :
        ((n : RNode) (rem : List ℕ) → IsDistinct n → IsDistinct (rremove fuel n rem).1)
        → (o : Outcome (Level × List ℕ)) → next_topic_level (c ∷ r) ≡ o
        → IsDistinct (rremove (suc fuel) (node old kids) (c ∷ r)).1
    by_level ih (ok (l, rem)) e =
        rw (e, rremove)
          (elim (Option-cases (get kids l)) [
            | inl g ↦ rw g (at_node old kids ds)
            | inr (n, g) ↦
                rw g (after-IsDistinct old kids l _ ds (ih n rem (get-IsDistinct ds l n g)))
          ])
    by_level ih (err x) e = rw (e, rremove) (at_node old kids ds)
    by_level ih stuck e = rw (e, rremove) (at_node old kids ds)

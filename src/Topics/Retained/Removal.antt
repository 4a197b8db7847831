-- ===== src/Topics/Retained/Removal.antt =====
-- What `rremove` of topics/memtopics.go does to the levels above the one it removes.
use magic_mqtt.Prelude.{ℕ, suc, ◌≡◌, ◌∙◌, Option, none, some, List, [], ◌∷◌}
use magic_mqtt.Packet.Publish.{Publish}
use magic_mqtt.Topics.Level.{Level, ok, same_refl, next_topic_level}
use magic_mqtt.Topics.Trie.{Nodes, node, nil, entry, get, remove}
use magic_mqtt.Topics.Trie.Laws.{get-remove}
use magic_mqtt.Topics.Retained.Table.{message_at, message_at_leaf, message_at_cons, message_at_new}
use magic_mqtt.Topics.Retained.{RNode, after_rremove, rremove}

rremove_step :
    (fuel : ℕ) (old : Option Publish) (kids : Nodes (Option Publish)) (c : ℕ) (r : List ℕ)
    (l : Level) (rem : List ℕ) (n : RNode)
    → next_topic_level (c ∷ r) ≡ ok (l, rem)
    → get kids l ≡ some n
    → rremove (suc fuel) (node old kids) (c ∷ r) ≡ after_rremove old kids l (rremove fuel n rem)
unfolding rremove
rremove_step fuel old kids c r l rem n e g = rw (e, rremove) (rw g)

-- Where the message of a topic of two levels is the only thing below the first level, which has a
-- retained message of its own, withdrawing it drops the message of the first level as well.
pub rremove_parent :
    (fuel : ℕ) (topic rem : List ℕ) (c d : ℕ) (a b : Level) (x : Option Publish) (m p : Publish)
    (kids : Nodes (Option Publish))
    → next_topic_level (c ∷ topic) ≡ ok (a, d ∷ rem)
    → next_topic_level (d ∷ rem) ≡ ok (b, [])
    → get kids a ≡ some (node (some m) (entry b (node (some p) nil) nil))
    → (message_at (node x kids) (a ∷ []) ≡ some m)
      × (message_at (rremove (suc (suc (suc fuel))) (node x kids) (c ∷ topic)).1 (a ∷ []) ≡ none)
rremove_parent fuel topic rem c d a b x m p kids e e' g =
    (rw (message_at_cons, g, message_at_leaf), gone)
  where
    last :
        rremove (suc (suc fuel)) (node (some m) (entry b (node (some p) nil) nil)) (d ∷ rem)
        ≡ (ok tt, node (some m) nil)
    last =
        rremove_step (suc fuel) (some m) (entry b (node (some p) nil) nil) d rem b []
          (node (some p) nil) e' (unfold get in rw (same_refl b))
        ∙ (unfold rremove remove in rw (same_refl b))

    gone : message_at (rremove (suc (suc (suc fuel))) (node x kids) (c ∷ topic)).1 (a ∷ []) ≡ none
    gone = rw (
      rremove_step (suc (suc fuel)) x kids c topic a (d ∷ rem)
          (node (some m) (entry b (node (some p) nil) nil)) e g,
      last,
      message_at_cons,
      get-remove,
      same_refl a,
      message_at_new,
    )

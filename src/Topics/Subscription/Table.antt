-- ===== src/Topics/Subscription/Table.antt =====
-- The subscription tree as a table: the subscribers at each list of levels.
use magic_mqtt.Prelude.{◌≡◌, refl, Option, none, some, List, [], ◌∷◌}
use magic_mqtt.Topics.Level.{Level}
use magic_mqtt.Topics.Trie.{Nodes, node, get, find}
use magic_mqtt.Topics.Subscription.{SNode, Subs, new_snode, child_or_new, subs_of}

unfoldable pub subs_at : SNode → List Level → Subs
subs_at t ls = subs_of (find t ls)

pub subs_at_new : (ks : List Level) → subs_at new_snode ks ≡ []
unfolding subs_at find get
subs_at_new [] = refl
subs_at_new (k ∷ ks) = refl

pub subs_at_leaf : (subs : Subs) (kids : Nodes Subs) → subs_at (node subs kids) [] ≡ subs
unfolding subs_at find
subs_at_leaf subs kids = refl

pub subs_at_cons :
    (subs : Subs) (kids : Nodes Subs) (k : Level) (ks : List Level)
    → subs_at (node subs kids) (k ∷ ks) ≡ subs_at (child_or_new (get kids k)) ks
subs_at_cons subs kids k ks = by_child (get kids k) refl
  where
    by_child :
        (o : Option SNode)
        → get kids k ≡ o
        → subs_at (node subs kids) (k ∷ ks) ≡ subs_at (child_or_new o) ks
    by_child none e = rw (subs_at_new ks) (unfold subs_at find in rw (e, find))
    by_child (some n) e = unfold subs_at find in rw (e, find)

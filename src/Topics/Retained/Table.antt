-- ===== src/Topics/Retained/Table.antt =====
-- The tree of retained messages as a table: the message at each list of levels.
use magic_mqtt.Prelude.{◌≡◌, refl, Option, none, some, List, [], ◌∷◌}
use magic_mqtt.Packet.Publish.{Publish}
use magic_mqtt.Topics.Level.{Level}
use magic_mqtt.Topics.Trie.{Nodes, node, get, find}
use magic_mqtt.Topics.Retained.{RNode, new_rnode, rchild_or_new}

abbrev msg_of : Option RNode → Option Publish
msg_of none = none
msg_of (some (node msg kids)) = msg

unfoldable pub message_at : RNode → List Level → Option Publish
message_at t ls = msg_of (find t ls)

pub message_at_new : (ks : List Level) → message_at new_rnode ks ≡ none
unfolding message_at find get
message_at_new [] = refl
message_at_new (k ∷ ks) = refl

pub message_at_leaf :
    (msg : Option Publish) (kids : Nodes (Option Publish)) → message_at (node msg kids) [] ≡ msg
unfolding message_at find
message_at_leaf msg kids = refl

pub message_at_cons :
    (msg : Option Publish) (kids : Nodes (Option Publish)) (k : Level) (ks : List Level)
    → message_at (node msg kids) (k ∷ ks) ≡ message_at (rchild_or_new (get kids k)) ks
message_at_cons msg kids k ks = by_child (get kids k) refl
  where
    by_child :
        (o : Option RNode)
        → get kids k ≡ o
        → message_at (node msg kids) (k ∷ ks) ≡ message_at (rchild_or_new o) ks
    by_child none e = rw (message_at_new ks) (unfold message_at find in rw (e, find))
    by_child (some n) e = unfold message_at find in rw (e, find)

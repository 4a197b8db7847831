-- ===== src/Topics/Retained/Update.antt =====
-- `rinsertOrUpdate` of topics/memtopics.go against the table.
use magic_mqtt.Prelude.{
  ℕ, zero, suc, ◌≡◌, refl, ◌∙◌, Bool, true, false, Bool-cases, inl, inr, Option, some, List, [],
  ◌∷◌, if◌then◌else◌,
}
use magic_mqtt.Packet.Publish.{Publish}
use magic_mqtt.Topics.Level.{Level, ok, same, same_iff, next_topic_level}
use magic_mqtt.Topics.Levels.{levels, levels-Split, same_path}
use magic_mqtt.Topics.Trie.{Nodes, node, get, put}
use magic_mqtt.Topics.Trie.Laws.{get-put}
use magic_mqtt.Topics.Retained.{RNode, rchild_or_new, rinsert_or_update}
use magic_mqtt.Topics.Retained.Table.{message_at, message_at_leaf, message_at_cons}

rinsert_step :
    (fuel : ℕ) (old : Option Publish) (kids : Nodes (Option Publish)) (c : ℕ) (r : List ℕ)
    (msg : Publish) (l : Level) (rem : List ℕ)
    → next_topic_level (c ∷ r) ≡ ok (l, rem)
    → rinsert_or_update (suc fuel) (node old kids) (c ∷ r) msg ≡ (
      (rinsert_or_update fuel (rchild_or_new (get kids l)) rem msg).0,
      node old (put kids l (rinsert_or_update fuel (rchild_or_new (get kids l)) rem msg).1),
    )
unfolding rinsert_or_update
rinsert_step fuel old kids c r msg l rem e = rw (e, rinsert_or_update)

message_at-put :
    (old : Option Publish) (kids : Nodes (Option Publish)) (l k : Level) (ks : List Level)
    (n : RNode)
    → message_at (node old (put kids l n)) (k ∷ ks)
      ≡ (if same l k then message_at n ks else message_at (node old kids) (k ∷ ks))
message_at-put old kids l k ks n =
    message_at_cons old (put kids l n) k ks
    ∙ rw (get-put kids l k n, message_at_cons) (by_test (same l k))
  where
    by_test :
        (b : Bool)
        → message_at (rchild_or_new (if b then some n else get kids k)) ks
          ≡ (if b then message_at n ks else message_at (rchild_or_new (get kids k)) ks)
    by_test true = refl
    by_test false = refl

-- Where the topic splits into levels with the fuel, `rinsertOrUpdate` succeeds.
pub rinsert_or_update-ok :
    (fuel : ℕ) (t : RNode) (topic : List ℕ) (msg : Publish) (ls : List Level)
    → levels fuel topic ≡ ok ls
    → (rinsert_or_update fuel t topic msg).0 ≡ ok tt
unfolding rinsert_or_update
rinsert_or_update-ok fuel (node old kids) [] msg ls e = refl
rinsert_or_update-ok zero t (c ∷ r) msg ls e = unfold levels in cc
rinsert_or_update-ok (suc fuel) (node old kids) (c ∷ r) msg ls e =
    let s = levels-Split fuel c r ls e in
    rw (rinsert_step fuel old kids c r msg s.first s.left s.next)
      (rinsert_or_update-ok fuel (rchild_or_new (get kids s.first)) s.left msg s.others s.rest)

-- Where the topic splits into levels with the fuel, `rinsertOrUpdate` puts the message at those
-- levels, in the place of the one that was there, and changes no other entry of the table.
pub message_at-rinsert_or_update :
    (fuel : ℕ) (t : RNode) (topic : List ℕ) (msg : Publish) (ls ks : List Level)
    → levels fuel topic ≡ ok ls
    → message_at (rinsert_or_update fuel t topic msg).1 ks
      ≡ (if same_path ls ks then some msg else message_at t ks)
unfolding same_path
message_at-rinsert_or_update fuel (node old kids) [] msg ls ks e = leaf ls ks (unfold levels in e)
  where
    leaf :
        (ls ks : List Level)
        → ok [] ≡ ok ls
        → message_at (rinsert_or_update fuel (node old kids) [] msg).1 ks
          ≡ (if same_path ls ks then some msg else message_at (node old kids) ks)
    leaf [] [] p = unfold rinsert_or_update in simp message_at_leaf
    leaf [] (k ∷ ks) p = unfold rinsert_or_update in simp message_at_cons
    leaf (l ∷ ls) ks p = cc
message_at-rinsert_or_update zero t (c ∷ r) msg ls ks e = unfold levels in cc
message_at-rinsert_or_update (suc fuel) (node old kids) (c ∷ r) msg ls [] e =
    let s = levels-Split fuel c r ls e in
    rw (s.whole, rinsert_step fuel old kids c r msg s.first s.left s.next) (simp message_at_leaf)
message_at-rinsert_or_update (suc fuel) (node old kids) (c ∷ r) msg ls (k ∷ ks) e =
    let s = levels-Split fuel c r ls e in
    let child = rchild_or_new (get kids s.first) in
    let ih = message_at-rinsert_or_update fuel child s.left msg s.others ks s.rest in
    rw (s.whole, rinsert_step fuel old kids c r msg s.first s.left s.next)
      (message_at-put old kids s.first k ks (rinsert_or_update fuel child s.left msg).1
        ∙ elim (Bool-cases (same s.first k)) [
          | inl p ↦
              let q : s.first ≡ k = (same_iff s.first k).0 p in rw (p, message_at_cons, ← q) ih
          | inr p ↦ rw p
        ])

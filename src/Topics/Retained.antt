-- ===== src/Topics/Retained.antt =====
-- The tree of retained messages of topics/memtopics.go: `rnode` and its methods. The recursion is
-- on fuel, the length of the topic; a Go map is walked in the order of the entries.
pub mod Table
pub mod Update
pub mod Exact
pub mod Removal
pub mod Wellformed
pub mod Match
use magic_mqtt.Prelude.{
  ℕ, zero, suc, Bool, true, false, Option, none, some, List, [], ◌∷◌, ◌++◌, if◌then◌else◌,
}
use magic_mqtt.Packet.Publish.{Publish}
use magic_mqtt.Topics.Level.{
  Level, Outcome, ok, err, stuck, no_topic, mwc, swc, same, next_topic_level,
}
use magic_mqtt.Topics.Trie.{Trie, Nodes, node, nil, entry, nodes, get, put, remove, is_empty}

abbrev pub RNode : Type 0
RNode = Trie (Option Publish)

-- `newRNode`
abbrev pub new_rnode : RNode
new_rnode = node none nil

abbrev pub rchild_or_new : Option RNode → RNode
rchild_or_new none = new_rnode
rchild_or_new (some n) = n

unfoldable pub rinsert_or_update : ℕ → RNode → List ℕ → Publish → Outcome (Unit {0}) × RNode
rinsert_or_update fuel (node old kids) [] msg = (ok tt, node (some msg) kids)
rinsert_or_update zero n (c ∷ t) msg = (stuck, n)
rinsert_or_update (suc fuel) (node old kids) (c ∷ t) msg = elim (next_topic_level (c ∷ t)) [
  | ok (level, rem) ↦
      let (r, n) = rinsert_or_update fuel (rchild_or_new (get kids level)) rem msg in
      (r, node old (put kids level n))
  | err e ↦ (err e, node old kids)
  | stuck ↦ (stuck, node old kids)
]

-- The node that was visited goes when it has no nodes below, whether or not it holds a message.
abbrev pub after_rremove :
    Option Publish
    → Nodes (Option Publish)
    → Level
    → Outcome (Unit {0}) × RNode
    → Outcome (Unit {0}) × RNode
after_rremove old kids level (ok u, n) =
    (ok tt, node old (if is_empty (nodes n) then remove kids level else put kids level n))
after_rremove old kids level (err e, n) = (err e, node old (put kids level n))
after_rremove old kids level (stuck, n) = (stuck, node old kids)

unfoldable pub rremove : ℕ → RNode → List ℕ → Outcome (Unit {0}) × RNode
rremove fuel (node old kids) [] = (ok tt, node none kids)
rremove zero n (c ∷ t) = (stuck, n)
rremove (suc fuel) (node old kids) (c ∷ t) = elim (next_topic_level (c ∷ t)) [
  | ok (level, rem) ↦ elim (get kids level) [
    | none ↦ (err no_topic, node old kids)
    | some n ↦ after_rremove old kids level (rremove fuel n rem)
  ]
  | err e ↦ (err e, node old kids)
  | stuck ↦ (stuck, node old kids)
]

abbrev pub add_msg : Option Publish → List Publish → List Publish
add_msg none msgs = msgs
add_msg (some m) msgs = msgs ++ m ∷ []

unfoldable mutual
  pub all_retained : RNode → List Publish → List Publish
  all_retained (node msg kids) msgs = all_retained_below kids (add_msg msg msgs)

  pub all_retained_below : Nodes (Option Publish) → List Publish → List Publish
  all_retained_below nil msgs = msgs
  all_retained_below (entry k n rest) msgs = all_retained_below rest (all_retained n msgs)

abbrev pub Retrieved : Type 0
Retrieved = Outcome (Unit {0}) × List Publish

abbrev pub then_retrieve : Retrieved → (List Publish → Retrieved) → Retrieved
then_retrieve (ok u, msgs) k = k msgs
then_retrieve (err e, msgs) k = (err e, msgs)
then_retrieve (stuck, msgs) k = (stuck, msgs)

-- The loop of `rmatch` over all nodes of a level.
unfoldable pub rmatch_nodes :
    (RNode → List Publish → Retrieved) → Nodes (Option Publish) → List Publish → Retrieved
rmatch_nodes call nil msgs = (ok tt, msgs)
rmatch_nodes call (entry k n rest) msgs = then_retrieve (call n msgs) (rmatch_nodes call rest)

unfoldable pub rmatch : ℕ → RNode → List ℕ → List Publish → Retrieved
rmatch fuel (node msg kids) [] msgs = (ok tt, add_msg msg msgs)
rmatch zero n (c ∷ t) msgs = (stuck, msgs)
rmatch (suc fuel) (node msg kids) (c ∷ t) msgs = elim (next_topic_level (c ∷ t)) [
  | ok (level, rem) ↦
      let below = λ (n : RNode) (found : List Publish). rmatch fuel n rem found in
      if same level mwc
      then (ok tt, all_retained (node msg kids) msgs)
      else if same level swc
      then rmatch_nodes below kids msgs
      else elim (get kids level) [ none ↦ (ok tt, msgs) | some n ↦ below n msgs ]
  | err e ↦ (err e, msgs)
  | stuck ↦ (stuck, msgs)
]

-- ===== src/Topics/Subscription.antt =====
-- The subscription tree of topics/memtopics.go: `snode` and its methods. The parallel slices
-- `_subs` and `_qos` are one list of pairs. The recursion is on fuel, the length of the topic; the
-- order in which a Go map is walked is the order of the entries.
pub mod Table
pub mod Insert
pub mod Remove
pub mod Wellformed
pub mod Match
use magic_mqtt.Prelude.{
  ℕ, zero, suc, ◌+◌, Bool, true, false, ◌&&◌, ◌||◌, Option, none, some, List, [], ◌∷◌, ◌++◌, length,
  if◌then◌else◌,
}
use magic_mqtt.Topics.Level.{
  Level, Outcome, ok, err, stuck, no_topic, no_subscriber, mwc, swc, same, next_topic_level,
}
use magic_mqtt.Topics.Trie.{Trie, Nodes, node, nil, entry, get, put, remove, is_empty}
use magic_mqtt.Topics.Value.{Value, nothing, equal}

abbrev pub Subs : Type 0
Subs = List (Value × ℕ)

abbrev pub SNode : Type 0
SNode = Trie Subs

-- `newSNode`
abbrev pub new_snode : SNode
new_snode = node [] nil

-- The leaf case of `sinsert`: the QoS of an equal subscriber is replaced, else the pair is appended.
unfoldable pub insert_sub : Value → ℕ → Subs → Subs
insert_sub sub qos [] = (sub, qos) ∷ []
insert_sub sub qos ((s, q) ∷ rest) =
    if equal s sub then (s, qos) ∷ rest else (s, q) ∷ insert_sub sub qos rest

abbrev pub child_or_new : Option SNode → SNode
child_or_new none = new_snode
child_or_new (some n) = n

-- The child is put into the map before the call, so it stays there when the call fails.
unfoldable pub sinsert : ℕ → SNode → List ℕ → ℕ → Value → Outcome (Unit {0}) × SNode
sinsert fuel (node subs kids) [] qos sub = (ok tt, node (insert_sub sub qos subs) kids)
sinsert zero n (c ∷ t) qos sub = (stuck, n)
sinsert (suc fuel) (node subs kids) (c ∷ t) qos sub = elim (next_topic_level (c ∷ t)) [
  | ok (level, rem) ↦
      let (r, n) = sinsert fuel (child_or_new (get kids level)) rem qos sub in
      (r, node subs (put kids level n))
  | err e ↦ (err e, node subs kids)
  | stuck ↦ (stuck, node subs kids)
]

-- The leaf case of `sremove`: the first equal subscriber goes.
unfoldable pub remove_sub : Value → Subs → Option Subs
remove_sub sub [] = none
remove_sub sub ((s, q) ∷ rest) =
    if equal s sub
    then some rest
    else elim (remove_sub sub rest) [ none ↦ none | some r ↦ some ((s, q) ∷ r) ]

abbrev pub is_unused : SNode → Bool
is_unused (node [] kids) = is_empty kids
is_unused (node (p ∷ subs) kids) = false

abbrev pub after_remove :
    Subs → Nodes Subs → Level → Outcome (Unit {0}) × SNode → Outcome (Unit {0}) × SNode
after_remove subs kids level (ok u, n) =
    (ok tt, node subs (if is_unused n then remove kids level else put kids level n))
after_remove subs kids level (err e, n) = (err e, node subs (put kids level n))
after_remove subs kids level (stuck, n) = (stuck, node subs kids)

abbrev pub leaf_result : Subs → Nodes Subs → Option Subs → Outcome (Unit {0}) × SNode
leaf_result subs kids none = (err no_subscriber, node subs kids)
leaf_result subs kids (some r) = (ok tt, node r kids)

abbrev pub remove_leaf : Subs → Nodes Subs → Value → Outcome (Unit {0}) × SNode
remove_leaf subs kids nothing = (ok tt, node [] kids)
remove_leaf subs kids sub = leaf_result subs kids (remove_sub sub subs)

unfoldable pub sremove : ℕ → SNode → List ℕ → Value → Outcome (Unit {0}) × SNode
sremove fuel (node subs kids) [] sub = remove_leaf subs kids sub
sremove zero n (c ∷ t) sub = (stuck, n)
sremove (suc fuel) (node subs kids) (c ∷ t) sub = elim (next_topic_level (c ∷ t)) [
  | ok (level, rem) ↦ elim (get kids level) [
    | none ↦ (err no_topic, node subs kids)
    | some n ↦ after_remove subs kids level (sremove fuel n rem sub)
  ]
  | err e ↦ (err e, node subs kids)
  | stuck ↦ (stuck, node subs kids)
]

-- `matchQos`: every subscriber of the node, with the QoS of the message.
unfoldable pub match_qos : ℕ → Subs → Subs → Subs
match_qos qos [] found = found
match_qos qos ((s, q) ∷ rest) found = match_qos qos rest (found ++ (s, qos) ∷ [])

abbrev pub Found : Type 0
Found = Outcome (Unit {0}) × Subs

abbrev pub and_then : Found → (Subs → Found) → Found
and_then (ok u, found) k = k found
and_then (err e, found) k = (err e, found)
and_then (stuck, found) k = (stuck, found)

abbrev pub subs_of : Option SNode → Subs
subs_of none = []
subs_of (some (node subs kids)) = subs

-- The loop of `smatch` over the map; `call` is the call on a node.
unfoldable pub match_nodes : (SNode → Subs → Found) → ℕ → Level → Nodes Subs → Subs → Found
match_nodes call qos level nil found = (ok tt, found)
match_nodes call qos level (entry k n rest) found =
    let here =
      if same k mwc
      then (ok tt, match_qos qos (subs_of (some n)) found)
      else if same k swc || same k level
      then call n found
      else (ok tt, found) in
    and_then here (match_nodes call qos level rest)

unfoldable pub smatch : ℕ → SNode → List ℕ → ℕ → Subs → Found
smatch fuel (node subs kids) [] qos found =
    (ok tt, match_qos qos (subs_of (get kids mwc)) (match_qos qos subs found))
smatch zero n (c ∷ t) qos found = (stuck, found)
smatch (suc fuel) (node subs kids) (c ∷ t) qos found = elim (next_topic_level (c ∷ t)) [
  | ok (level, rem) ↦ match_nodes (λ n found. smatch fuel n rem qos found) qos level kids found
  | err e ↦ (err e, found)
  | stuck ↦ (stuck, found)
]

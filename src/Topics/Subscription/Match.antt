-- ===== src/Topics/Subscription/Match.antt =====
-- `smatch` of topics/memtopics.go against a list.
pub mod Delivery
use magic_mqtt.Prelude.{
  ℕ, zero, suc, ◌≡◌, ◌∙◌, refl, ap, Bool, true, false, Bool-cases, inl, inr, some, ◌||◌, List, [],
  ◌∷◌, ◌++◌, map, append-nil, append_assoc, if◌then◌else◌,
}
use mathlib.Core.List.{map-append}
use magic_mqtt.Topics.Level.{Level, ok, same, mwc, swc, next_topic_level}
use magic_mqtt.Topics.Levels.{levels, levels-Split}
use magic_mqtt.Topics.Trie.{Nodes, node, nil, entry, get}
use magic_mqtt.Topics.Value.{Value}
use magic_mqtt.Topics.Subscription.{
  SNode, Subs, Found, subs_of, match_qos, and_then, match_nodes, smatch,
}

-- The walk over the map, with the call on a node.
unfoldable pub over_nodes : (SNode → Subs) → Level → Nodes Subs → Subs
over_nodes call level nil = []
over_nodes call level (entry k n rest) =
    (if same k mwc then subs_of (some n) else if same k swc || same k level then call n else [])
    ++ over_nodes call level rest

-- The subscriptions that a topic with these levels reaches, in the order of the walk.
unfoldable pub delivered : SNode → List Level → Subs
delivered (node subs kids) [] = subs ++ subs_of (get kids mwc)
delivered (node subs kids) (l ∷ ls) = over_nodes (λ n. delivered n ls) l kids

abbrev pub at_qos : ℕ → Value × ℕ → Value × ℕ
at_qos qos p = (p.0, qos)

match_qos-map :
    (qos : ℕ) (subs found : Subs) → match_qos qos subs found ≡ found ++ map (at_qos qos) subs
unfolding match_qos
match_qos-map qos [] found = rw append-nil
match_qos-map qos ((s, q) ∷ rest) found = match_qos-map qos rest _ ∙ simp append_assoc

match_nodes-over_nodes :
    (call : SNode → Subs → Found) (reach : SNode → Subs) (qos : ℕ) (level : Level)
    (kids : Nodes Subs) (found : Subs)
    → ((n : SNode) (found : Subs) → call n found ≡ (ok tt, found ++ map (at_qos qos) (reach n)))
    → match_nodes call qos level kids found
      ≡ (ok tt, found ++ map (at_qos qos) (over_nodes reach level kids))
unfolding match_nodes over_nodes
match_nodes-over_nodes call reach qos level nil found h = rw append-nil
match_nodes-over_nodes call reach qos level (entry k n rest) found h =
    let ih = λ (more : Subs). match_nodes-over_nodes call reach qos level rest more h in
    elim (Bool-cases (same k mwc)) [
      | inl p ↦ rw p (ih _ ∙ simp (match_qos-map, map-append, append_assoc))
      | inr p ↦ elim (Bool-cases (same k swc || same k level)) [
        | inl q ↦ rw (p, q, h n found) (ih _ ∙ simp (map-append, append_assoc))
        | inr q ↦ rw (p, q) (ih found)
      ]
    ]

smatch_step :
    (fuel : ℕ) (subs : Subs) (kids : Nodes Subs) (c : ℕ) (r : List ℕ) (qos : ℕ) (found : Subs)
    (l : Level) (rem : List ℕ)
    → next_topic_level (c ∷ r) ≡ ok (l, rem)
    → smatch (suc fuel) (node subs kids) (c ∷ r) qos found
      ≡ match_nodes (λ n more. smatch fuel n rem qos more) qos l kids found
unfolding smatch
smatch_step fuel subs kids c r qos found l rem e = rw (e, smatch)

delivered_step :
    (subs : Subs) (kids : Nodes Subs) (l : Level) (ls : List Level)
    → delivered (node subs kids) (l ∷ ls) ≡ over_nodes (λ n. delivered n ls) l kids
unfolding delivered
delivered_step subs kids l ls = refl

-- Where the topic splits into levels with the fuel, `smatch` succeeds and appends to the
-- subscribers found what `delivered` lists for those levels, in the order of the walk, whatever QoS
-- each was granted, with the QoS of the message.
pub smatch-delivered :
    (fuel : ℕ) (t : SNode) (topic : List ℕ) (qos : ℕ) (found : Subs) (ls : List Level)
    → levels fuel topic ≡ ok ls
    → smatch fuel t topic qos found ≡ (ok tt, found ++ map (at_qos qos) (delivered t ls))
smatch-delivered fuel (node subs kids) [] qos found ls e = leaf ls (unfold levels in e)
  where
    leaf :
        (ls : List Level)
        → ok [] ≡ ok ls
        → smatch fuel (node subs kids) [] qos found
          ≡ (ok tt, found ++ map (at_qos qos) (delivered (node subs kids) ls))
    leaf [] p = unfold smatch delivered in simp (match_qos-map, map-append, append_assoc)
    leaf (l ∷ ls) p = cc
smatch-delivered zero t (c ∷ r) qos found ls e = unfold levels in cc
smatch-delivered (suc fuel) (node subs kids) (c ∷ r) qos found ls e =
    let s = levels-Split fuel c r ls e in
    let below =
      λ (n : SNode) (more : Subs). smatch-delivered fuel n s.left qos more s.others s.rest in
    rw (smatch_step fuel subs kids c r qos found s.first s.left s.next, s.whole, delivered_step)
      (match_nodes-over_nodes _ (λ n. delivered n s.others) qos s.first kids found below)

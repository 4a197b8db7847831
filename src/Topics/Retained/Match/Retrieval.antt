-- ===== src/Topics/Retained/Match/Retrieval.antt =====
-- The topics that a filter asks for, against the walk of `rmatch` of topics/memtopics.go.
use magic_mqtt.Prelude.{
  ◌≡◌, refl, sym, ◌∙◌, Bool-cases, Option-cases, inl, inr, false, Option, some, List, [], ◌∷◌,
  arith,
}
use magic_mqtt.Packet.Publish.{Publish}
use magic_mqtt.Topics.Level.{Level, same, same_iff, same_refl, mwc, swc}
use magic_mqtt.Topics.Levels.Last.{MultiLast}
use magic_mqtt.Topics.Trie.{Nodes, node, get}
use magic_mqtt.Topics.Trie.Distinct.{
  IsDistinct, AreDistinct, at_node, at_nil, at_entry, get-IsDistinct,
}
use magic_mqtt.Topics.Retained.{RNode}
use magic_mqtt.Topics.Retained.Table.{message_at, message_at_leaf, message_at_cons, message_at_new}
use magic_mqtt.Topics.Subscription.Match.Delivery.{Matches, here, multi, single, exact}
use magic_mqtt.Topics.Retained.Match.{
  held, everything, everything_below, asked, asked_step, everything_below-walk,
}
use magic_mqtt.Topics.Retained.Match.Among.{
  Among, Among-append_left, Among-append_right, Among-append, Among-held, held-Among, walk-get,
  get-walk,
}

-- A message that the tree holds for a topic that the filter matches.
pub record Retains (m : Publish) (t : RNode) (filter : List Level) : Type 0 where
  pub topic : List Level
  pub matching : Matches filter topic
  pub there : message_at t topic ≡ some m

-- A message that the tree holds, and one that some node of a map holds.
record Holds (m : Publish) (t : RNode) : Type 0 where
  at_topic : List Level
  is_there : message_at t at_topic ≡ some m

record HoldsBelow (m : Publish) (kids : Nodes (Option Publish)) : Type 0 where
  key : Level
  child : RNode
  at_key : get kids key ≡ some child
  holds : Holds m child

mutual
  unfolding everything everything_below get

  everything-Holds : (m : Publish) {t : RNode} → IsDistinct t → Among m (everything t) → Holds m t
  everything-Holds m (at_node msg kids ds) h =
      elim (Among-append m (held msg) (everything_below kids) h) [
        | inl x ↦ record { at_topic = []; is_there = message_at_leaf msg kids ∙ Among-held m msg x }
        | inr x ↦
            let b = everything_below-HoldsBelow m ds x in
            record {
              at_topic = b.key ∷ b.holds.at_topic;
              is_there =
                  message_at_cons msg kids b.key b.holds.at_topic ∙ rw b.at_key b.holds.is_there;
            }
      ]

  everything_below-HoldsBelow :
      (m : Publish) {kids : Nodes (Option Publish)}
      → AreDistinct kids
      → Among m (everything_below kids)
      → HoldsBelow m kids
  everything_below-HoldsBelow m at_nil h = absurd h
  everything_below-HoldsBelow m (at_entry k n rest g d ds) h =
      elim (Among-append m (everything n) (everything_below rest) h) [
        | inl x ↦ record {
          key = k;
          child = n;
          at_key = rw (same_refl k);
          holds = everything-Holds m d x;
        }
        | inr x ↦
            let b = everything_below-HoldsBelow m ds x in
            record {
              key = b.key;
              child = b.child;
              at_key = ground (arith, b.at_key, g, same_iff k b.key);
              holds = b.holds;
            }
      ]

-- The node through which a topic leads.
via_child :
    (m : Publish) (msg : Option Publish) (kids : Nodes (Option Publish)) (k : Level)
    (ks : List Level)
    → message_at (node msg kids) (k ∷ ks) ≡ some m
    → (n : RNode) × ((get kids k ≡ some n) × (message_at n ks ≡ some m))
via_child m msg kids k ks e = elim (Option-cases (get kids k)) [
  | inl g ↦ cc (rw (message_at_cons, g, message_at_new) at e)
  | inr (n, g) ↦ (n, (g, rw (message_at_cons, g) at e))
]

everything-message_at :
    (m : Publish) (t : RNode) (topic : List Level)
    → message_at t topic ≡ some m
    → Among m (everything t)
unfolding everything
everything-message_at m (node msg kids) [] e =
    Among-append_left m (held msg) (everything_below kids)
      (held-Among m msg (sym (message_at_leaf msg kids) ∙ e))
everything-message_at m (node msg kids) (k ∷ ks) e =
    let (n, (g, e')) = via_child m msg kids k ks e in
    Among-append_right m (held msg) (everything_below kids) (
      rw (everything_below-walk kids)
        (walk-get m everything kids k n g (everything-message_at m n ks e')))

-- Only messages of topics that the filter matches are asked for.
pub asked-Retains :
    (m : Publish) (t : RNode) (ls : List Level)
    → IsDistinct t
    → MultiLast ls
    → Among m (asked t ls)
    → Retains m t ls
asked-Retains m (node msg kids) [] d w h = record {
  topic = [];
  matching = here;
  there = message_at_leaf msg kids ∙ Among-held m msg (unfold asked in h);
}
asked-Retains m (node msg kids) (l ∷ ls) (at_node _ _ ds) (last, w) h =
    elim (Bool-cases (same l mwc)) [
      | inl p ↦
          let q : l ≡ mwc = (same_iff l mwc).0 p in
          let a = everything-Holds m (at_node msg kids ds) (rw (asked_step, p) at h) in
          record {
            topic = a.at_topic;
            matching = rw (q, last q) (multi a.at_topic);
            there = a.is_there;
          }
      | inr p ↦ elim (Bool-cases (same l swc)) [
        | inl q ↦
            let s = get-walk m (λ n. asked n ls) ds (rw (asked_step, p, q) at h) in
            let below =
              asked-Retains m s.child ls (get-IsDistinct ds s.key s.child s.at_key) w s.gives in
            record {
              topic = s.key ∷ below.topic;
              matching = rw ((same_iff l swc).0 q) (single s.key below.matching);
              there = message_at_cons msg kids s.key below.topic ∙ rw s.at_key below.there;
            }
        | inr q ↦ elim (Option-cases (get kids l)) [
          | inl g ↦ absurd (rw (asked_step, p, q, g) at h)
          | inr (n, g) ↦
              let below =
                asked-Retains m n ls (get-IsDistinct ds l n g) w (rw (asked_step, p, q, g) at h) in
              record {
                topic = l ∷ below.topic;
                matching = exact l (λ e. cc ((same_iff l mwc).1 e)) below.matching;
                there = message_at_cons msg kids l below.topic ∙ rw g below.there;
              }
        ]
      ]
    ]

swc_test : same swc mwc ≡ false
unfolding same
swc_test = refl

-- Every message of a topic that the filter matches is asked for.
pub Retains-asked :
    (m : Publish) (t : RNode) {f ls : List Level}
    → Matches f ls
    → message_at t ls ≡ some m
    → Among m (asked t f)
Retains-asked m (node msg kids) here e =
    unfold asked in held-Among m msg (sym (message_at_leaf msg kids) ∙ e)
Retains-asked m (node msg kids) (multi ls) e =
    rw (asked_step, same_refl mwc) (everything-message_at m (node msg kids) ls e)
Retains-asked m (node msg kids) (single l {f = f} {ls = ls} h) e =
    let (n, (g, e')) = via_child m msg kids l ls e in
    rw (asked_step, swc_test, same_refl swc)
      (walk-get m (λ n. asked n f) kids l n g (Retains-asked m n h e'))
Retains-asked m (node msg kids) (exact l {f = f} {ls = ls} far h) e =
    let (n, (g, e')) = via_child m msg kids l ls e in
    let below = Retains-asked m n h e' in
    elim (Bool-cases (same l mwc)) [
      | inl p ↦ absurd (far ((same_iff l mwc).0 p))
      | inr p ↦ elim (Bool-cases (same l swc)) [
        | inl q ↦ rw (asked_step, p, q) (walk-get m (λ n. asked n f) kids l n g below)
        | inr q ↦ rw (asked_step, p, q, g) below
      ]
    ]

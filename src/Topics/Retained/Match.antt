-- ===== src/Topics/Retained/Match.antt =====
-- `rmatch` of topics/memtopics.go against a list.
pub mod Retrieval
pub mod Among
use magic_mqtt.Prelude.{
  ℕ, zero, suc, ◌≡◌, ◌∙◌, refl, ap, Bool, true, false, Bool-cases, Option-cases, inl, inr, Option,
  none, some, List, [], ◌∷◌, ◌++◌, append-nil, append_assoc, if◌then◌else◌,
}
use magic_mqtt.Packet.Publish.{Publish}
use magic_mqtt.Topics.Level.{Level, ok, same, mwc, swc, next_topic_level}
use magic_mqtt.Topics.Levels.{levels, levels-Split}
use magic_mqtt.Topics.Trie.{Nodes, node, nil, entry, get}
use magic_mqtt.Topics.Retained.{
  RNode, Retrieved, add_msg, all_retained, all_retained_below, then_retrieve, rmatch_nodes, rmatch,
}

abbrev pub held : Option Publish → List Publish
held none = []
held (some m) = m ∷ []

-- A walk over the nodes of a map.
unfoldable pub walk : (RNode → List Publish) → Nodes (Option Publish) → List Publish
walk f nil = []
walk f (entry k n rest) = f n ++ walk f rest

-- Every message of a tree.
unfoldable mutual
  pub everything : RNode → List Publish
  everything (node msg kids) = held msg ++ everything_below kids

  pub everything_below : Nodes (Option Publish) → List Publish
  everything_below nil = []
  everything_below (entry k n rest) = everything n ++ everything_below rest

abbrev pub from_child : (RNode → List Publish) → Option RNode → List Publish
from_child f none = []
from_child f (some n) = f n

-- The messages that a filter with these levels asks for, in the order of the walk.
unfoldable pub asked : RNode → List Level → List Publish
asked (node msg kids) [] = held msg
asked (node msg kids) (l ∷ ls) =
    let below = λ (n : RNode). asked n ls in
    if same l mwc
    then everything (node msg kids)
    else if same l swc
    then walk below kids
    else from_child below (get kids l)

add_msg-held : (o : Option Publish) (msgs : List Publish) → add_msg o msgs ≡ msgs ++ held o
add_msg-held none msgs = rw append-nil
add_msg-held (some m) msgs = refl

mutual
  unfolding all_retained all_retained_below everything everything_below

  all_retained-everything :
      (t : RNode) (msgs : List Publish) → all_retained t msgs ≡ msgs ++ everything t
  all_retained-everything (node msg kids) msgs =
      all_retained_below-everything kids (add_msg msg msgs)
      ∙ ap (λ ms. ms ++ everything_below kids) (add_msg-held msg msgs)
      ∙ append_assoc msgs (held msg) (everything_below kids)

  all_retained_below-everything :
      (kids : Nodes (Option Publish)) (msgs : List Publish)
      → all_retained_below kids msgs ≡ msgs ++ everything_below kids
  all_retained_below-everything nil msgs = rw append-nil
  all_retained_below-everything (entry k n rest) msgs =
      all_retained_below-everything rest (all_retained n msgs)
      ∙ ap (λ ms. ms ++ everything_below rest) (all_retained-everything n msgs)
      ∙ append_assoc msgs (everything n) (everything_below rest)

pub everything_below-walk :
    (kids : Nodes (Option Publish)) → everything_below kids ≡ walk everything kids
unfolding everything_below walk
everything_below-walk nil = refl
everything_below-walk (entry k n rest) = ap (λ ms. everything n ++ ms) (everything_below-walk rest)

rmatch_nodes-walk :
    (call : RNode → List Publish → Retrieved) (reach : RNode → List Publish)
    (kids : Nodes (Option Publish)) (msgs : List Publish)
    → ((n : RNode) (found : List Publish) → call n found ≡ (ok tt, found ++ reach n))
    → rmatch_nodes call kids msgs ≡ (ok tt, msgs ++ walk reach kids)
unfolding rmatch_nodes walk
rmatch_nodes-walk call reach nil msgs h = rw append-nil
rmatch_nodes-walk call reach (entry k n rest) msgs h =
    rw (h n msgs) (rmatch_nodes-walk call reach rest (msgs ++ reach n) h ∙ simp append_assoc)

pub asked_step :
    (msg : Option Publish) (kids : Nodes (Option Publish)) (l : Level) (ls : List Level)
    → asked (node msg kids) (l ∷ ls) ≡ (
        if same l mwc
        then everything (node msg kids)
        else if same l swc
        then walk (λ n. asked n ls) kids
        else from_child (λ n. asked n ls) (get kids l))
unfolding asked
asked_step msg kids l ls = refl

-- Where the filter splits into levels with the fuel, `rmatch` succeeds and appends what `asked`
-- lists for those levels.
pub rmatch-asked :
    (fuel : ℕ) (t : RNode) (filter : List ℕ) (msgs : List Publish) (ls : List Level)
    → levels fuel filter ≡ ok ls
    → rmatch fuel t filter msgs ≡ (ok tt, msgs ++ asked t ls)
unfolding rmatch asked
rmatch-asked fuel (node msg kids) [] msgs ls e = leaf ls (unfold levels in e)
  where
    leaf :
        (ls : List Level)
        → ok [] ≡ ok ls
        → rmatch fuel (node msg kids) [] msgs ≡ (ok tt, msgs ++ asked (node msg kids) ls)
    leaf [] p = ap (λ ms. (ok tt, ms)) (add_msg-held msg msgs)
    leaf (l ∷ ls) p = cc
rmatch-asked zero t (c ∷ r) msgs ls e = unfold levels in cc
rmatch-asked (suc fuel) (node msg kids) (c ∷ r) msgs ls e =
    let s = levels-Split fuel c r ls e in
    let below =
      λ (n : RNode) (more : List Publish). rmatch-asked fuel n s.left more s.others s.rest in
    rw (s.whole, s.next, rmatch, asked_step)
      (elim (Bool-cases (same s.first mwc)) [
        | inl p ↦ rw p (ap (λ ms. (ok tt, ms)) (all_retained-everything (node msg kids) msgs))
        | inr p ↦ elim (Bool-cases (same s.first swc)) [
          | inl q ↦
              rw (p, q)
                (rmatch_nodes-walk (λ n more. rmatch fuel n s.left more) (λ n. asked n s.others)
                  kids msgs below)
          | inr q ↦ elim (Option-cases (get kids s.first)) [
            | inl g ↦ rw (p, q, g) (ap (λ ms. (ok tt, ms)) (rw append-nil))
            | inr (n, g) ↦ rw (p, q, g) (below n msgs)
          ]
        ]
      ])

-- ===== src/Topics/Retained/Exact.antt =====
-- `rmatch` for a topic without wildcards, and `Retained` after `Retain` of topics/memtopics.go.
use magic_mqtt.Prelude.{
  ℕ, zero, suc, ◌<◌, ◌≡◌, refl, ap, ◌∙◌, true, false, Option-cases, inl, inr, some, List, [], ◌∷◌,
  length, ◌==◌, All, arith,
}
use magic_mqtt.Packet.Publish.{Publish}
use magic_mqtt.Topics.Level.{Level, ok, same, mwc, swc}
use magic_mqtt.Topics.Levels.{levels, topic_levels, levels-Split, same_path, same_path_iff}
use magic_mqtt.Topics.Trie.{node, get}
use magic_mqtt.Topics.Retained.{RNode, add_msg, rinsert_or_update, rmatch}
use magic_mqtt.Topics.Retained.Table.{message_at, message_at_leaf, message_at_cons, message_at_new}
use magic_mqtt.Topics.Retained.Update.{rinsert_or_update-ok, message_at-rinsert_or_update}
use magic_mqtt.Topics.Memory.{MemTopics, retain, retained}

-- A level that is no wildcard.
abbrev pub IsName : Level → Type 0
IsName l = (same l mwc ≡ false) × (same l swc ≡ false)

pub rmatch_exact :
    (fuel : ℕ) (t : RNode) (topic : List ℕ) (msgs : List Publish) (ls : List Level)
    → levels fuel topic ≡ ok ls
    → All IsName ls
    → rmatch fuel t topic msgs ≡ (ok tt, add_msg (message_at t ls) msgs)
unfolding rmatch
rmatch_exact fuel (node old kids) [] msgs ls e h =
    ap (λ (found : List Publish). (ok tt, found)) (leaf ls (unfold levels in e))
  where
    leaf :
        (ls : List Level)
        → ok [] ≡ ok ls
        → add_msg old msgs ≡ add_msg (message_at (node old kids) ls) msgs
    leaf [] p = rw message_at_leaf
    leaf (l ∷ ls) p = cc
rmatch_exact zero t (c ∷ r) msgs ls e h = unfold levels in cc
rmatch_exact (suc fuel) (node old kids) (c ∷ r) msgs ls e h =
    let s = levels-Split fuel c r ls e in
    let (name, names) : IsName s.first × All IsName s.others = rw s.whole at h in
    rw (s.whole, s.next, rmatch, name.0, name.1, message_at_cons)
      (elim (Option-cases (get kids s.first)) [
        | inl g ↦ rw (g, message_at_new)
        | inr (n, g) ↦ rw g (rmatch_exact fuel n s.left msgs s.others s.rest names)
      ])

-- A message with a payload that is retained under a topic without wildcards, one that splits into
-- levels, is what `Retained` then finds for that topic, alone.
retained-retain :
    (m : MemTopics) (msg : Publish) (ls : List Level)
    → 0 < length msg.payload
    → topic_levels msg.topic_name ≡ ok ls
    → All IsName ls
    → ((retain m msg).0 ≡ ok tt) × (retained (retain m msg).1 msg.topic_name [] ≡ (ok tt, msg ∷ []))
unfolding retain retained topic_levels
retained-retain m msg ls p e h =
    let some_payload : (length msg.payload == 0) ≡ false = ground arith in
    let fuel = length msg.topic_name in
    let t = (rinsert_or_update fuel m.rroot msg.topic_name msg).1 in
    let self : same_path ls ls ≡ true = (same_path_iff ls ls).1 refl in
    let there : message_at t ls ≡ some msg =
      message_at-rinsert_or_update fuel m.rroot msg.topic_name msg ls ls e ∙ rw self refl in
    rw some_payload (
      rinsert_or_update-ok fuel m.rroot msg.topic_name msg ls e,
      rmatch_exact fuel t msg.topic_name [] ls e h ∙ ap (λ o. (ok tt, add_msg o [])) there,
    )

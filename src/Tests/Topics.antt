-- ===== src/Tests/Topics.antt =====
-- The theorems on topics/memtopics.go at concrete topics and trees.
use magic_mqtt.Prelude.{
  ℕ, ◌≡◌, ◌↔◌, refl, Option, none, some, List, [], ◌∷◌, ◌++◌, map, ◌&&◌, length, if◌then◌else◌,
}
use magic_mqtt.Packet.Publish
use magic_mqtt.Packet.Publish.{Publish}
use magic_mqtt.Topics.Level.{Level, ok, swc, same, scan, next_topic_level}
use magic_mqtt.Topics.Levels.{levels, topic_levels, same_path}
use magic_mqtt.Topics.Trie.{Trie, node, nil, entry, get, put}
use magic_mqtt.Topics.Trie.Distinct.{IsDistinct, at_node, at_nil, at_entry}
use magic_mqtt.Topics.Value.{Value, pointer, equal}
use magic_mqtt.Topics.Subscription.{SNode, sinsert, smatch}
use magic_mqtt.Topics.Subscription.Table.{subs_at}
use magic_mqtt.Topics.Subscription.Insert.{qos_of, grown, qos_of-sinsert}
use magic_mqtt.Topics.Subscription.Match.{delivered, at_qos, smatch-delivered}
use magic_mqtt.Topics.Subscription.Match.Delivery.{Has, Matches, here, single, exact, Subscribed}
use magic_mqtt.Topics.Retained.{rremove, rmatch, rinsert_or_update, rmatch_nodes}
use magic_mqtt.Topics.Retained.Removal.{rremove_parent}
use magic_mqtt.Topics.Retained.Table.{message_at}
use magic_mqtt.Topics.Memory.{MemTopics, new_mem, subscribers, retain, retained}
use magic_mqtt.Topics.Memory.Delivery.{subscribers_iff}
use magic_mqtt.Topics.Memory.Retrieval.{retained_iff}
use magic_mqtt.Topics.Retained.Match.Among.{Among}
use magic_mqtt.Topics.Retained.Match.Retrieval.{Retains}
use magic_mqtt.Topics.Memory.Calls.{start, after_retain}

-- "a/b", "+/b" and "a/#", and their levels
abbrev topic : List ℕ
topic = b'a' ∷ b'/' ∷ b'b' ∷ []

abbrev topic_names : List Level
topic_names = (b'a' ∷ []) ∷ (b'b' ∷ []) ∷ []

abbrev filter : List ℕ
filter = b'+' ∷ b'/' ∷ b'b' ∷ []

abbrev filter_names : List Level
filter_names = swc ∷ (b'b' ∷ []) ∷ []

abbrev client : Value
client = pointer 1

topic_levels_topic : topic_levels topic ≡ ok topic_names
unfolding topic_levels levels next_topic_level scan
topic_levels_topic = refl

topic_levels_filter : topic_levels filter ≡ ok filter_names
unfolding topic_levels levels next_topic_level scan
topic_levels_filter = refl

levels_topic : levels 3 topic ≡ ok topic_names
unfolding levels next_topic_level scan
levels_topic = refl

levels_filter : levels 3 filter ≡ ok filter_names
unfolding levels next_topic_level scan
levels_filter = refl

filter-Matches : Matches filter_names topic_names
filter-Matches = single (b'a' ∷ []) (exact (b'b' ∷ []) (λ e. cc e) here)

abbrev leaf : SNode
leaf = node ((client, 1) ∷ []) nil

-- A tree with a subscription under "+/b".
abbrev tree : SNode
tree = node [] (entry swc (node [] (entry (b'b' ∷ []) leaf nil)) nil)

tree-IsDistinct : IsDistinct tree
unfolding get
tree-IsDistinct = at_node [] (entry swc (node [] (entry (b'b' ∷ []) leaf nil)) nil) (
    at_entry swc (node [] (entry (b'b' ∷ []) leaf nil)) nil refl
      (at_node [] (entry (b'b' ∷ []) leaf nil)
        (at_entry (b'b' ∷ []) leaf nil refl (at_node ((client, 1) ∷ []) nil at_nil) at_nil))
      at_nil)

abbrev mem : MemTopics
mem = record new_mem { sroot = tree }

subscribers_iff_example :
    ((subscribers mem topic 1).0 ≡ ok tt)
    × (Has client (subscribers mem topic 1).1 ↔ Subscribed client tree topic_names)
subscribers_iff_example =
    subscribers_iff mem topic 1 topic_names client tree-IsDistinct refl topic_levels_topic

smatch-delivered_example :
    smatch 3 tree topic 1 [] ≡ (ok tt, [] ++ map (at_qos 1) (delivered tree topic_names))
smatch-delivered_example = smatch-delivered 3 tree topic 1 [] topic_names levels_topic

qos_of-sinsert_example :
    let before = subs_at tree filter_names in
    let after = subs_at (sinsert 3 tree filter 2 client).1 filter_names in
    (qos_of client after ≡ (
      if same_path filter_names filter_names && equal client client
      then some 2
      else qos_of client before))
    × (length after ≡ (
        if same_path filter_names filter_names
        then grown (qos_of client before) (length before)
        else length before))
    × ((if same_path filter_names filter_names then before else after) ≡ before)
qos_of-sinsert_example =
    qos_of-sinsert 3 tree filter 2 client client filter_names filter_names levels_filter

abbrev parent : Publish
parent = record (Publish.spawn) { topic_name = b'a' ∷ []; payload = 1 ∷ [] }

abbrev child : Publish
child = record (Publish.spawn) { topic_name = topic; payload = 2 ∷ [] }

abbrev held : Trie (Option Publish)
held = node (some parent) (entry (b'b' ∷ []) (node (some child) nil) nil)

rremove_parent_example :
    (message_at (node none (entry (b'a' ∷ []) held nil)) ((b'a' ∷ []) ∷ []) ≡ some parent)
    × (message_at (rremove 3 (node none (entry (b'a' ∷ []) held nil)) topic).1 ((b'a' ∷ []) ∷ [])
        ≡ none)
unfolding next_topic_level scan get same
rremove_parent_example =
    rremove_parent 0 (b'/' ∷ b'b' ∷ []) [] b'a' b'b' (b'a' ∷ []) (b'b' ∷ []) none parent child
      (entry (b'a' ∷ []) held nil) refl refl refl

retained_iff_example :
    ((retained (retain new_mem child).1 filter []).0 ≡ ok tt)
    × (Among child (retained (retain new_mem child).1 filter []).1
        ↔ Retains child (retain new_mem child).1.rroot filter_names)
retained_iff_example =
    retained_iff (retain new_mem child).1 filter filter_names child (after_retain start child)
      topic_levels_filter

-- The message is found.
retained_child : retained (retain new_mem child).1 filter [] ≡ (ok tt, child ∷ [])
unfolding retained retain rmatch rinsert_or_update rmatch_nodes next_topic_level scan get put same
retained_child = refl

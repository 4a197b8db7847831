-- ===== src/Topics/Memory/Retrieval.antt =====
-- `Retained` of topics/memtopics.go after any calls of the provider's methods.
use magic_mqtt.Prelude.{ℕ, ◌≡◌, ◌↔◌, refl, Bool-cases, inl, inr, List, [], length, ◌==◌}
use magic_mqtt.Packet.Publish.{Publish}
use magic_mqtt.Topics.Level.{Level, Outcome, ok, err, stuck}
use magic_mqtt.Topics.Levels.{topic_levels}
use magic_mqtt.Topics.Levels.Last.{levels-MultiLast}
use magic_mqtt.Topics.Trie.{nil}
use magic_mqtt.Topics.Trie.Distinct.{IsDistinct, at_node, at_nil}
use magic_mqtt.Topics.Value.{Value, nothing, pointer, func, string, number}
use magic_mqtt.Topics.Subscription.{SNode}
use magic_mqtt.Topics.Retained.Wellformed.{rinsert_or_update-IsDistinct, rremove-IsDistinct}
use magic_mqtt.Topics.Retained.Match.{rmatch-asked}
use magic_mqtt.Topics.Retained.Match.Among.{Among}
use magic_mqtt.Topics.Retained.Match.Retrieval.{Retains, asked-Retains, Retains-asked}
use magic_mqtt.Topics.Memory.{
  MemTopics, valid_qos, subscribed, subscribe_valid, subscribe, unsubscribe, retain, retained,
}
use magic_mqtt.Topics.Memory.Calls.{
  Reached, start, after_subscribe, after_unsubscribe, after_retain,
}

subscribed-rroot :
    (m : MemTopics) (qos : ℕ) (p : Outcome (Unit {0}) × SNode)
    → (subscribed m qos p).1.rroot ≡ m.rroot
subscribed-rroot m qos (ok u, t) = refl
subscribed-rroot m qos (err e, t) = refl
subscribed-rroot m qos (stuck, t) = refl

subscribe_valid-rroot :
    (m : MemTopics) (topic : List ℕ) (qos : ℕ) (sub : Value)
    → (subscribe_valid m topic qos sub).1.rroot ≡ m.rroot
subscribe_valid-rroot m topic qos nothing = refl
subscribe_valid-rroot m topic qos (pointer a) = subscribed-rroot m qos _
subscribe_valid-rroot m topic qos (func a) = subscribed-rroot m qos _
subscribe_valid-rroot m topic qos (string a) = subscribed-rroot m qos _
subscribe_valid-rroot m topic qos (number k a) = subscribed-rroot m qos _

pub subscribe-rroot :
    (m : MemTopics) (topic : List ℕ) (qos : ℕ) (sub : Value)
    → (subscribe m topic qos sub).1.rroot ≡ m.rroot
unfolding subscribe
subscribe-rroot m topic qos sub = elim (Bool-cases (valid_qos qos)) [
  | inl q ↦ rw q (subscribe_valid-rroot m topic qos sub)
  | inr q ↦ rw q refl
]

retain-IsDistinct :
    (m : MemTopics) (msg : Publish) → IsDistinct m.rroot → IsDistinct (retain m msg).1.rroot
unfolding retain
retain-IsDistinct m msg d = elim (Bool-cases (length msg.payload == 0)) [
  | inl e ↦ rw e (rremove-IsDistinct (length msg.topic_name) m.rroot msg.topic_name d)
  | inr e ↦ rw e (rinsert_or_update-IsDistinct (length msg.topic_name) m.rroot msg.topic_name msg d)
]

rroot-IsDistinct : (m : MemTopics) → Reached m → IsDistinct m.rroot
unfolding unsubscribe
rroot-IsDistinct _ start = at_node _ nil at_nil
rroot-IsDistinct _ (after_subscribe {m = m} r topic qos sub) =
    rw subscribe-rroot (rroot-IsDistinct m r)
rroot-IsDistinct _ (after_unsubscribe {m = m} r topic sub) = rroot-IsDistinct m r
rroot-IsDistinct _ (after_retain {m = m} r msg) = retain-IsDistinct m msg (rroot-IsDistinct m r)

-- After any calls of the provider's methods, failed ones included: for a filter that splits into
-- levels, `Retained` succeeds and finds exactly the messages that the tree holds at topics that the
-- filter matches.
pub retained_iff :
    (m : MemTopics) (filter : List ℕ) (ls : List Level) (msg : Publish)
    → Reached m
    → topic_levels filter ≡ ok ls
    → ((retained m filter []).0 ≡ ok tt)
      × (Among msg (retained m filter []).1 ↔ Retains msg m.rroot ls)
unfolding retained topic_levels
retained_iff m filter ls msg r e =
    let found = rmatch-asked (length filter) m.rroot filter [] ls e in
    let d = rroot-IsDistinct m r in
    let w = levels-MultiLast (length filter) filter ls e in
    (
      rw found,
      (
        λ h. asked-Retains msg m.rroot ls d w (rw found at h),
        λ s. rw found (Retains-asked msg m.rroot s.matching s.there),
      ),
    )

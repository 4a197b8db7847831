-- ===== src/Topics/Memory/Delivery.antt =====
-- `Subscribers` of topics/memtopics.go against the filters that a tree holds.
use magic_mqtt.Prelude.{ℕ, ◌≡◌, ◌↔◌, true, inl, inr, List, [], ◌∷◌, map, length}
use magic_mqtt.Topics.Level.{Level, ok}
use magic_mqtt.Topics.Levels.{topic_levels}
use magic_mqtt.Topics.Trie.Distinct.{IsDistinct}
use magic_mqtt.Topics.Value.{Value}
use magic_mqtt.Topics.Subscription.{Subs}
use magic_mqtt.Topics.Subscription.Match.{at_qos, delivered, smatch-delivered}
use magic_mqtt.Topics.Subscription.Match.Delivery.{
  Has, Subscribed, delivered-Subscribed, Subscribed-delivered,
}
use magic_mqtt.Topics.Memory.{MemTopics, valid_qos, subscribers}

Has-at_qos_of : (v : Value) (qos : ℕ) (xs : Subs) → Has v (map (at_qos qos) xs) → Has v xs
Has-at_qos_of v qos [] h = h
Has-at_qos_of v qos ((s, q) ∷ xs) (inl e) = inl e
Has-at_qos_of v qos ((s, q) ∷ xs) (inr h) = inr (Has-at_qos_of v qos xs h)

Has-of_at_qos : (v : Value) (qos : ℕ) (xs : Subs) → Has v xs → Has v (map (at_qos qos) xs)
Has-of_at_qos v qos [] h = h
Has-of_at_qos v qos ((s, q) ∷ xs) (inl e) = inl e
Has-of_at_qos v qos ((s, q) ∷ xs) (inr h) = inr (Has-of_at_qos v qos xs h)

subscribers-delivered :
    (m : MemTopics) (topic : List ℕ) (qos : ℕ) (ls : List Level)
    → valid_qos qos ≡ true
    → topic_levels topic ≡ ok ls
    → subscribers m topic qos ≡ (ok tt, map (at_qos qos) (delivered m.sroot ls))
unfolding subscribers topic_levels
subscribers-delivered m topic qos ls q e =
    rw q (smatch-delivered (length topic) m.sroot topic qos [] ls e)

-- For a valid QoS, a topic that splits into levels and a subscription tree whose maps hold no level
-- twice, `Subscribers` succeeds and finds exactly the subscribers that hold a subscription under a
-- filter that matches the levels, also those that were granted a lower QoS than that.
pub subscribers_iff :
    (m : MemTopics) (topic : List ℕ) (qos : ℕ) (ls : List Level) (v : Value)
    → IsDistinct m.sroot
    → valid_qos qos ≡ true
    → topic_levels topic ≡ ok ls
    → ((subscribers m topic qos).0 ≡ ok tt)
      × (Has v (subscribers m topic qos).1 ↔ Subscribed v m.sroot ls)
subscribers_iff m topic qos ls v d q e =
    let same = subscribers-delivered m topic qos ls q e in
    (
      rw same,
      (
        λ h.
            delivered-Subscribed v m.sroot ls d
              (Has-at_qos_of v qos (delivered m.sroot ls) (rw same at h)),
        λ s. rw same (
            Has-of_at_qos v qos (delivered m.sroot ls)
              (Subscribed-delivered v m.sroot s.matching s.sub)),
      ),
    )

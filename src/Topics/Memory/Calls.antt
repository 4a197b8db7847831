-- ===== src/Topics/Memory/Calls.antt =====
-- The provider after any calls of its methods.
use magic_mqtt.Prelude.{ℕ, ◌≡◌, ◌≢◌, refl, true, Bool-cases, inl, inr, List, [], ◌∷◌, length}
use magic_mqtt.Packet.Publish.{Publish}
use magic_mqtt.Topics.Level.{Level, Outcome, ok, err, stuck}
use magic_mqtt.Topics.Levels.{topic_levels, same_path, same_path_iff}
use magic_mqtt.Topics.Trie.{nil}
use magic_mqtt.Topics.Trie.Distinct.{IsDistinct, at_node, at_nil}
use magic_mqtt.Topics.Value.{Value, nothing, pointer, func, string, number, equal, equal→eq}
use magic_mqtt.Topics.Subscription.{SNode, Subs, insert_sub, sinsert}
use magic_mqtt.Topics.Subscription.Table.{subs_at}
use magic_mqtt.Topics.Subscription.Insert.{sinsert-ok, subs_at-sinsert}
use magic_mqtt.Topics.Subscription.Wellformed.{sinsert-IsDistinct, sremove-IsDistinct}
use magic_mqtt.Topics.Subscription.Match.Delivery.{Has, Matches, Subscribed}
use magic_mqtt.Topics.Memory.{
  MemTopics, new_mem, valid_qos, subscribed, subscribe_valid, subscribe, unsubscribe, subscribers,
  retain,
}
use magic_mqtt.Topics.Memory.Delivery.{subscribers_iff}

-- What calls can make of a new provider; the queries do not change it.
pub data Reached : MemTopics → Type 0 where
  start : Reached new_mem
  after_subscribe :
      {m : MemTopics}
      → Reached m
      → (topic : List ℕ) (qos : ℕ) (sub : Value) → Reached (subscribe m topic qos sub).1
  after_unsubscribe :
      {m : MemTopics}
      → Reached m
      → (topic : List ℕ) (sub : Value) → Reached (unsubscribe m topic sub).1
  after_retain : {m : MemTopics} → Reached m → (msg : Publish) → Reached (retain m msg).1

subscribed-sroot :
    (m : MemTopics) (qos : ℕ) (p : Outcome (Unit {0}) × SNode) → (subscribed m qos p).1.sroot ≡ p.1
subscribed-sroot m qos (ok u, t) = refl
subscribed-sroot m qos (err e, t) = refl
subscribed-sroot m qos (stuck, t) = refl

subscribe-IsDistinct :
    (m : MemTopics) (topic : List ℕ) (qos : ℕ) (sub : Value)
    → IsDistinct m.sroot
    → IsDistinct (subscribe m topic qos sub).1.sroot
unfolding subscribe
subscribe-IsDistinct m topic qos sub d = elim (Bool-cases (valid_qos qos)) [
  | inl q ↦ rw q (valid sub)
  | inr q ↦ rw q d
]
  where
    inserted :
        (s : Value)
        → IsDistinct (subscribed m qos (sinsert (length topic) m.sroot topic qos s)).1.sroot
    inserted s =
        rw (subscribed-sroot m qos (sinsert (length topic) m.sroot topic qos s))
          (sinsert-IsDistinct (length topic) m.sroot topic qos s d)

    valid : (s : Value) → IsDistinct (subscribe_valid m topic qos s).1.sroot
    valid nothing = d
    valid (pointer a) = inserted (pointer a)
    valid (func a) = inserted (func a)
    valid (string a) = inserted (string a)
    valid (number k a) = inserted (number k a)

-- After any calls, failed ones included, no map of the subscription tree holds a level twice.
pub Reached-IsDistinct : (m : MemTopics) → Reached m → IsDistinct m.sroot
unfolding unsubscribe retain
Reached-IsDistinct _ start = at_node [] nil at_nil
Reached-IsDistinct _ (after_subscribe {m = m} r topic qos sub) =
    subscribe-IsDistinct m topic qos sub (Reached-IsDistinct m r)
Reached-IsDistinct _ (after_unsubscribe {m = m} r topic sub) =
    sremove-IsDistinct (length topic) m.sroot topic sub (Reached-IsDistinct m r)
Reached-IsDistinct _ (after_retain {m = m} r msg) = Reached-IsDistinct m r

Has-insert_sub : (v : Value) (qos : ℕ) (xs : Subs) → Has v (insert_sub v qos xs)
unfolding insert_sub
Has-insert_sub v qos [] = inl refl
Has-insert_sub v qos ((s, q) ∷ xs) = elim (Bool-cases (equal s v)) [
  | inl e ↦ rw e (inl (equal→eq s v e))
  | inr e ↦ rw e (inr (Has-insert_sub v qos xs))
]

pub subscribe-inserted :
    (m : MemTopics) (topic : List ℕ) (qos : ℕ) (v : Value) (f : List Level)
    → valid_qos qos ≡ true
    → v ≢ nothing
    → topic_levels topic ≡ ok f
    → (subscribe m topic qos v ≡ ((qos, ok tt), (subscribe m topic qos v).1))
      × ((subscribe m topic qos v).1.sroot ≡ (sinsert (length topic) m.sroot topic qos v).1)
unfolding subscribe topic_levels
subscribe-inserted m topic qos v f q n e = rw q (valid v n)
  where
    inserted :
        (s : Value)
        → (subscribed m qos (sinsert (length topic) m.sroot topic qos s)
            ≡ ((qos, ok tt), (subscribed m qos (sinsert (length topic) m.sroot topic qos s)).1))
          × ((subscribed m qos (sinsert (length topic) m.sroot topic qos s)).1.sroot
              ≡ (sinsert (length topic) m.sroot topic qos s).1)
    inserted s =
        by_result (sinsert (length topic) m.sroot topic qos s)
          (sinsert-ok (length topic) m.sroot topic qos s f e)
      where
        by_result :
            (p : Outcome (Unit {0}) × SNode)
            → p.0 ≡ ok tt
            → (subscribed m qos p ≡ ((qos, ok tt), (subscribed m qos p).1))
              × ((subscribed m qos p).1.sroot ≡ p.1)
        by_result (ok u, t) h = (refl, refl)
        by_result (err x, t) h = cc
        by_result (stuck, t) h = cc

    valid :
        (s : Value)
        → s ≢ nothing
        → (subscribe_valid m topic qos s ≡ ((qos, ok tt), (subscribe_valid m topic qos s).1))
          × ((subscribe_valid m topic qos s).1.sroot
              ≡ (sinsert (length topic) m.sroot topic qos s).1)
    valid nothing h = absurd (h refl)
    valid (pointer a) h = inserted (pointer a)
    valid (func a) h = inserted (func a)
    valid (string a) h = inserted (string a)
    valid (number k a) h = inserted (number k a)

-- After any calls: a subscription with a valid QoS, a subscriber that is not nil and a filter that
-- splits into levels is granted the QoS asked for, and `Subscribers` then finds the subscriber for
-- every topic that the filter matches.
pub subscribe-subscribers :
    (m : MemTopics) (filter topic : List ℕ) (qos level : ℕ) (v : Value) (f ls : List Level)
    → Reached m
    → valid_qos qos ≡ true
    → valid_qos level ≡ true
    → v ≢ nothing
    → topic_levels filter ≡ ok f
    → topic_levels topic ≡ ok ls
    → Matches f ls
    → ((subscribe m filter qos v).0 ≡ (qos, ok tt))
      × Has v (subscribers (subscribe m filter qos v).1 topic level).1
unfolding topic_levels
subscribe-subscribers m filter topic qos level v f ls r q p n e e' h =
    let (granted, root) = subscribe-inserted m filter qos v f q n e in
    let m' = (subscribe m filter qos v).1 in
    let found =
      (subscribers_iff m' topic level ls v (Reached-IsDistinct m' (after_subscribe r filter qos v))
        p e').1 in
    let self : same_path f f ≡ true = (same_path_iff f f).1 refl in
    let sub : Has v (subs_at m'.sroot f) =
      rw (root, subs_at-sinsert (length filter) m.sroot filter qos v f f e, self)
        (Has-insert_sub v qos (subs_at m.sroot f)) in
    let s : Subscribed v m'.sroot ls = record { filter = f; matching = h; sub = sub } in
    (rw granted, found.1 s)

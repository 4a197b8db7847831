-- ===== src/Server/Sound/Subscribing.antt =====
-- Subscriptions in server/conBroker.go under the rules.
use magic_mqtt.Prelude.{ℕ, Option, none, some, List, [], ◌∷◌}
use magic_mqtt.Packet.Subscribe.{Subscribe, SubscribePayload}
use magic_mqtt.Packet.Unsubscribe.{Unsubscribe}
use magic_mqtt.Topics.Level.{Outcome, ok, err, stuck}
use magic_mqtt.Topics.Value.{pointer}
use magic_mqtt.Topics.Memory.{MemTopics, subscribe}
use magic_mqtt.Topics.Memory.Calls
use magic_mqtt.Sessions.StringMap.{delete}
use magic_mqtt.Sessions.Session.{add_topics, remove_topics}
use magic_mqtt.Sessions.Session.Offline
use magic_mqtt.Server.State.{Subscription}
use magic_mqtt.Server.Action.{update_session}
use magic_mqtt.Server.Subscribe.{
  Collected, drop_old, new_subscription, in_topics, client_of, add_session_topic, subscribed_as,
  subscribe_one, subscribe_loop, on_subscribe, remove_session_topic, unsubscribe_found,
  unsubscribe_topic, on_unsubscribe,
}
use magic_mqtt.Server.Sound.Closing.{Keeps-unsubscribe_one}
use magic_mqtt.Server.Sound.{
  Keeps, Keeps-bind, Keeps-pure, Keeps-panics, Keeps-gets, Keeps-change, Keeps-update_session,
  keeps_rules,
}

module _ {A : Type 0} where
  Keeps-drop_old : (c : ℕ) (topic : List ℕ) (p : Option ℕ) → Keeps (drop_old {A = A} c topic p)
  Keeps-drop_old c topic none = Keeps-pure tt
  Keeps-drop_old c topic (some p) = search (keeps_rules, Keeps-unsubscribe_one)

  Keeps-new_subscription : (s : Subscription) → Keeps (new_subscription {A = A} s)
  Keeps-new_subscription s = record {
    at = λ w h. record {
      topics_reached = h.topics_reached;
      sessions_reached = h.sessions_reached;
      each_reached = h.each_reached;
    };
  }

  Keeps-in_topics :
      {X : Type 0} (f : MemTopics → X × MemTopics)
      → ((m : MemTopics) → Calls.Reached m → Calls.Reached (f m).1)
      → Keeps (in_topics {A = A} f)
  Keeps-in_topics f k = record {
    at = λ w s. record {
      topics_reached = k w.topics s.topics_reached;
      sessions_reached = s.sessions_reached;
      each_reached = s.each_reached;
    };
  }

  Keeps-subscribe :
      (topic : List ℕ) (qos s : ℕ)
      → Keeps (in_topics {A = A} (λ m. subscribe m topic qos (pointer s)))
  Keeps-subscribe topic qos s =
      Keeps-in_topics (λ m. subscribe m topic qos (pointer s))
        (λ m r. Calls.after_subscribe r topic qos (pointer s))

  Keeps-client_of : (a : Option ℕ) → Keeps (client_of {A = A} a)
  Keeps-client_of none = Keeps-panics
  Keeps-client_of (some a) = Keeps-gets (λ w. (w.sessions.heap a).client_id)

  Keeps-add_session_topic :
      (a : Option ℕ) (p : SubscribePayload) → Keeps (add_session_topic {A = A} a p)
  Keeps-add_session_topic none p = Keeps-panics
  Keeps-add_session_topic (some a) p =
      Keeps-update_session a (add_topics p.topic_path p.requested_qos)
        (λ s r. Offline.topic_added r p.topic_path p.requested_qos)

  Keeps-subscribed_as :
      (c : ℕ) (p : SubscribePayload) (s : ℕ) (acc : Collected) (r : ℕ × Outcome (Unit {0}))
      → Keeps (subscribed_as {A = A} c p s acc r)
  Keeps-subscribed_as c p s (codes, found) (qos, ok u) =
      search (keeps_rules, Keeps-add_session_topic) depth 8
  Keeps-subscribed_as c p s (codes, found) (qos, err e) = Keeps-pure _
  Keeps-subscribed_as c p s (codes, found) (qos, stuck) = Keeps-pure _

  Keeps-subscribe_one :
      (c : ℕ) (p : SubscribePayload) (acc : Collected) → Keeps (subscribe_one {A = A} c p acc)
  unfolding subscribe_one
  Keeps-subscribe_one c p acc =
      search
        (
          keeps_rules, Keeps-drop_old, Keeps-client_of, Keeps-new_subscription, Keeps-subscribe,
          Keeps-subscribed_as,
        )
        depth 12

  Keeps-subscribe_loop :
      (c : ℕ) (ps : List SubscribePayload) (acc : Collected)
      → Keeps (subscribe_loop {A = A} c ps acc)
  unfolding subscribe_loop
  Keeps-subscribe_loop c [] acc = Keeps-pure acc
  Keeps-subscribe_loop c (p ∷ ps) acc =
      Keeps-bind (subscribe_one c p acc) (subscribe_loop c ps) (Keeps-subscribe_one c p acc)
        (λ more. Keeps-subscribe_loop c ps more)

  pub Keeps-on_subscribe : (c : ℕ) (msg : Subscribe) → Keeps (on_subscribe {A = A} c msg)
  unfolding on_subscribe
  Keeps-on_subscribe c msg = search (keeps_rules, Keeps-subscribe_loop) depth 8

  Keeps-remove_session_topic :
      (c : ℕ) (topic : List ℕ) (a : Option ℕ) → Keeps (remove_session_topic {A = A} c topic a)
  Keeps-remove_session_topic c topic none = Keeps-pure tt
  Keeps-remove_session_topic c topic (some a) =
      Keeps-bind (update_session a (remove_topics topic)) _
        (Keeps-update_session a (remove_topics topic) (λ s r. Offline.topic_removed r topic))
        (λ _. Keeps-change c (λ k. record k { subscription = delete k.subscription topic }))

  Keeps-unsubscribe_found :
      (c : ℕ) (topic : List ℕ) (a p : Option ℕ) → Keeps (unsubscribe_found {A = A} c topic a p)
  Keeps-unsubscribe_found c topic a none = Keeps-pure tt
  Keeps-unsubscribe_found c topic a (some p) =
      search (keeps_rules, Keeps-unsubscribe_one, Keeps-remove_session_topic)

  Keeps-unsubscribe_topic : (c : ℕ) (p : SubscribePayload) → Keeps (unsubscribe_topic {A = A} c p)
  unfolding unsubscribe_topic
  Keeps-unsubscribe_topic c p = search (keeps_rules, Keeps-unsubscribe_found)

  pub Keeps-on_unsubscribe : (c : ℕ) (msg : Unsubscribe) → Keeps (on_unsubscribe {A = A} c msg)
  unfolding on_unsubscribe
  Keeps-on_unsubscribe c msg = search (keeps_rules, Keeps-unsubscribe_topic) depth 8

-- ===== src/Server/Subscribe.antt =====
-- Subscriptions: `onSubscribe` and `onUnSubscribe` of server/conBroker.go.
pub mod Unconnected
pub mod Granted
pub mod Queued
pub mod Withdrawn
use magic_mqtt.Prelude.{
  ℕ, ◌+◌, Bool, true, false, Option, none, some, List, [], ◌∷◌, ◌++◌, if◌then◌else◌,
}
use magic_mqtt.Packet.Publish.{Publish}
use magic_mqtt.Packet.Suback
use magic_mqtt.Packet.Subscribe.{Subscribe, SubscribePayload}
use magic_mqtt.Packet.Unsubscribe.{Unsubscribe}
use magic_mqtt.Message.{Message, publish, suback}
use magic_mqtt.Topics.Level.{Outcome, ok, err, stuck}
use magic_mqtt.Topics.Value.{pointer}
use magic_mqtt.Topics.Memory.{MemTopics, qos_failure, subscribe, retained}
use magic_mqtt.Common.MessageTable.{update}
use magic_mqtt.Sessions.StringMap.{StringMap, lookup, store, delete}
use magic_mqtt.Sessions.Session.{Session, add_topics, remove_topics}
use magic_mqtt.Server.State.{Board, Conn, Subscription}
use magic_mqtt.Server.Action.{
  Action, done, pure, panics, gets, modify, ◌>>=◌, ◌>>◌, for_each, get_conn, send, update_session,
}
use magic_mqtt.Server.Close.{change_conn, unsubscribe_one}

-- The return codes and the retained messages that the loop of `onSubscribe` has collected.
abbrev pub Collected : Type 0
Collected = List ℕ × List Publish

module _ {A : Type 0} where
  -- The client is subscribed already: the old subscription goes.
  abbrev pub drop_old : ℕ → List ℕ → Option ℕ → Action A (Unit {0})
  drop_old c topic none = pure tt
  drop_old c topic (some p) = do
    unsubscribe_one (topic, p)
    change_conn c (λ k. record k { subscription = delete k.subscription topic })

  abbrev pub new_subscription : Subscription → Action A ℕ
  new_subscription s w =
      (done w.next_sub, record w { subs = update w.subs w.next_sub s; next_sub = w.next_sub + 1 })

  abbrev pub in_topics : {X : Type 0} → (MemTopics → X × MemTopics) → Action A X
  in_topics f w = let (x, m) = f w.topics in (done x, record w { topics = m })

  -- Without a session `GetClientID` reads a field of nil.
  abbrev pub client_of : Option ℕ → Action A (List ℕ)
  client_of none = panics
  client_of (some a) = gets (λ w. (w.sessions.heap a).client_id)

  -- `slf._session` is not nil here: `GetClientID` has been called.
  abbrev pub add_session_topic : Option ℕ → SubscribePayload → Action A (Unit {0})
  add_session_topic none p = panics
  add_session_topic (some a) p = update_session a (add_topics p.topic_path p.requested_qos)

  abbrev pub subscribed_as :
      ℕ → SubscribePayload → ℕ → Collected → ℕ × Outcome (Unit {0}) → Action A Collected
  subscribed_as c p s (codes, found) (qos, ok u) = do
    change_conn c (λ k. record k { subscription = store k.subscription p.topic_path s })
    k ← get_conn c
    add_session_topic k.session p
    more ← gets (λ w. (retained w.topics p.topic_path found).1)
    pure (codes ++ qos ∷ [], more)
  subscribed_as c p s (codes, found) (qos, err e) = pure (codes ++ qos_failure ∷ [], found)
  subscribed_as c p s (codes, found) (qos, stuck) = pure (codes ++ qos_failure ∷ [], found)

  -- The body of the loop.
  unfoldable pub subscribe_one : ℕ → SubscribePayload → Collected → Action A Collected
  subscribe_one c p acc = do
    k ← get_conn c
    drop_old c p.topic_path (lookup k.subscription p.topic_path)
    client ← client_of k.session
    s ← new_subscription (record { client = client; topic = p.topic_path; qos = p.requested_qos })
    r ← in_topics (λ m. subscribe m p.topic_path p.requested_qos (pointer s))
    subscribed_as c p s acc r

  unfoldable pub subscribe_loop : ℕ → List SubscribePayload → Collected → Action A Collected
  subscribe_loop c [] acc = pure acc
  subscribe_loop c (p ∷ ps) acc = subscribe_one c p acc >>= subscribe_loop c ps

  -- `onSubscribe`
  unfoldable pub on_subscribe : ℕ → Subscribe → Action A (Unit {0})
  on_subscribe c msg = do
    (codes, found) ← subscribe_loop c msg.payload ([], [])
    send c (suback (record Suback.spawn { packet_identifier = msg.packet_identifier; qos = codes }))
    for_each (λ m. send c (publish m)) found

  abbrev pub remove_session_topic : ℕ → List ℕ → Option ℕ → Action A (Unit {0})
  remove_session_topic c topic none = pure tt
  remove_session_topic c topic (some a) = do
    update_session a (remove_topics topic)
    change_conn c (λ k. record k { subscription = delete k.subscription topic })

  abbrev pub unsubscribe_found : ℕ → List ℕ → Option ℕ → Option ℕ → Action A (Unit {0})
  unsubscribe_found c topic session none = pure tt
  unsubscribe_found c topic session (some p) =
      unsubscribe_one (topic, p) >> remove_session_topic c topic session

  -- The body of the loop of `onUnSubscribe`.
  unfoldable pub unsubscribe_topic : ℕ → SubscribePayload → Action A (Unit {0})
  unsubscribe_topic c p = do
    k ← get_conn c
    unsubscribe_found c p.topic_path k.session (lookup k.subscription p.topic_path)

  -- `onUnSubscribe`; it answers a SUBACK.
  unfoldable pub on_unsubscribe : ℕ → Unsubscribe → Action A (Unit {0})
  on_unsubscribe c msg = do
    for_each (unsubscribe_topic c) msg.payload
    send c (suback (record Suback.spawn { packet_identifier = msg.packet_identifier }))

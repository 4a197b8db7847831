-- ===== src/Server/Subscribe/Granted.antt =====
-- A SUBSCRIBE of a connected client for a topic that it has not subscribed, in server/conBroker.go.
use magic_mqtt.Prelude.{
  ℕ, ◌+◌, ◌≡◌, ◌↔◌, refl, ap, sym, subst, ◌∙◌, true, false, suc, ◌≤◌, length-append, arith, none,
  some, List, [], ◌∷◌, ◌++◌, map, length, ==_refl,
}
use magic_mqtt.Packet.Publish.{Publish}
use magic_mqtt.Packet.Suback
use magic_mqtt.Packet.Subscribe.{Subscribe, SubscribePayload}
use magic_mqtt.Message.{Message, publish, suback}
use magic_mqtt.Topics.Level.{Level, ok}
use magic_mqtt.Topics.Levels.{topic_levels}
use magic_mqtt.Topics.Value.{Value, pointer}
use magic_mqtt.Topics.Memory.{MemTopics, valid_qos, subscribe, subscribers, retained}
use magic_mqtt.Topics.Memory.Calls
use magic_mqtt.Topics.Memory.Calls.{subscribe-inserted, subscribe-subscribers}
use magic_mqtt.Topics.Memory.Retrieval.{subscribe-rroot, retained_iff}
use magic_mqtt.Topics.Retained.{rmatch}
use magic_mqtt.Topics.Retained.Match.Among.{Among}
use magic_mqtt.Topics.Retained.Match.Retrieval.{Retains}
use magic_mqtt.Topics.Subscription.Match.Delivery.{Has, Matches}
use magic_mqtt.Common.MessageTable.{update}
use magic_mqtt.Sessions.StringMap.{lookup, store}
use magic_mqtt.Sessions.Session.{add_topics}
use magic_mqtt.Server.State.{Board, Conn, Subscription}
use magic_mqtt.Server.Action.{done, bind, for_each, send, set_conn, set_session}
use magic_mqtt.Server.Subscribe.{subscribe_one, subscribe_loop, on_subscribe}
use magic_mqtt.Server.Subscribe.Queued.{send-Queued, then-Queued, for_each-Queued}

module _ {A : Type 0} (c a : ℕ) (p : SubscribePayload) (w : Board A) where
  -- The state with the subscription filed: with the provider, the connection and the session.
  abbrev filed : Board A
  filed =
      let k = w.conns c in
      let s : Subscription = record {
        client = (w.sessions.heap a).client_id;
        topic = p.topic_path;
        qos = p.requested_qos;
      } in
      let w1 : Board A = record w {
        subs = update w.subs w.next_sub s;
        next_sub = w.next_sub + 1;
        topics = (subscribe w.topics p.topic_path p.requested_qos (pointer w.next_sub)).1;
      } in
      let w2 : Board A =
        set_conn c (record k { subscription = store k.subscription p.topic_path w.next_sub }) w1 in
      set_session a (add_topics p.topic_path p.requested_qos (w.sessions.heap a)) w2

  subscribe_one-filed :
      (w.conns c).session ≡ some a
      → w.locked a ≡ false
      → lookup (w.conns c).subscription p.topic_path ≡ none
      → (subscribe w.topics p.topic_path p.requested_qos (pointer w.next_sub)).0
        ≡ (p.requested_qos, ok tt)
      → subscribe_one c p ([], []) w
        ≡ (done (p.requested_qos ∷ [], (retained filed.topics p.topic_path []).1), filed)
  unfolding subscribe_one
  subscribe_one-filed n free new e = rw (new, n, e, ==_refl c, n, free) refl

retained-subscribe :
    (m : MemTopics) (topic : List ℕ) (qos : ℕ) (sub : Value) (asked : List ℕ)
    → retained (subscribe m topic qos sub).1 asked [] ≡ retained m asked []
unfolding retained
retained-subscribe m topic qos sub asked =
    ap (λ t. rmatch (length asked) t asked []) (subscribe-rroot m topic qos sub)

abbrev ack_of : ℕ → SubscribePayload → Message
ack_of id p = suback (record Suback.spawn { packet_identifier = id; qos = p.requested_qos ∷ [] })

on_subscribe-filed :
    {A : Type 0} (c a : ℕ) (msg : Subscribe) (p : SubscribePayload) (w : Board A)
    → msg.payload ≡ p ∷ []
    → subscribe_one c p ([], []) w ≡ (
      done (p.requested_qos ∷ [], (retained (filed c a p w).topics p.topic_path []).1),
      filed c a p w,
    )
    → on_subscribe c msg w
      ≡ bind
          (send c (ack_of msg.packet_identifier p) (filed c a p w))
          (λ _. for_each (λ m. send c (publish m)) (retained w.topics p.topic_path []).1)
unfolding on_subscribe subscribe_loop
on_subscribe-filed c a msg p w one e =
    rw (one, e)
      (ap
        (λ found.
          bind (send c (ack_of msg.packet_identifier p) (filed c a p w))
            (λ _. for_each (λ m. send c (publish m)) found))
        (ap (λ r. r.1)
          (retained-subscribe w.topics p.topic_path p.requested_qos (pointer w.next_sub)
            p.topic_path)))

-- What a SUBSCRIBE with one topic leaves, which the client has not subscribed before: the SUBACK with
-- the QoS that was asked for, and behind it the retained messages of the topics that the filter
-- matches; and a new subscription of the client, which `Subscribers` finds for a topic.
pub record IsGranted {A : Type 0} (c a : ℕ) (id : ℕ) (p : SubscribePayload) (f : List Level)
    (topic : List ℕ) (qos : ℕ) (w v : Board A) : Type 0 where
  pub found : List Publish
  pub queued :
      (v.conns c).queue
      ≡ (w.conns c).queue
        ++ suback (record Suback.spawn { packet_identifier = id; qos = p.requested_qos ∷ [] })
          ∷ map publish found
  pub exact : (m : Publish) → Among m found ↔ Retains m w.topics.rroot f
  pub client : (v.subs w.next_sub).client ≡ (w.sessions.heap a).client_id
  pub receives : Has (pointer w.next_sub) (subscribers v.topics topic qos).1

-- `onSubscribe` on a connection with a session, whose lock is free, with an open queue that has
-- room for a message more than `Retained` finds for the topic, for a SUBSCRIBE with one topic that the connection has not subscribed, a valid QoS and a filter that
-- splits into levels, over a provider that calls lead to, returns: the client gets the SUBACK with
-- the QoS asked for and then exactly the retained messages of the topics that the filter matches,
-- and `Subscribers` finds its new subscription for every topic that the filter matches, at every
-- valid QoS, also one above the QoS that was granted.
pub on_subscribe-IsGranted :
    {A : Type 0} (c a : ℕ) (msg : Subscribe) (p : SubscribePayload) (topic : List ℕ) (qos : ℕ)
    (f ls : List Level) (w : Board A)
    → (w.conns c).session ≡ some a
    → w.locked a ≡ false
    → (w.conns c).queue_closed ≡ false
    → length (w.conns c).queue + suc (length (retained w.topics p.topic_path []).1)
      ≤ (w.conns c).capacity
    → lookup (w.conns c).subscription p.topic_path ≡ none
    → msg.payload ≡ p ∷ []
    → valid_qos p.requested_qos ≡ true
    → topic_levels p.topic_path ≡ ok f
    → Calls.Reached w.topics
    → valid_qos qos ≡ true
    → topic_levels topic ≡ ok ls
    → Matches f ls
    → ((on_subscribe c msg w).0 ≡ done tt)
      × IsGranted c a msg.packet_identifier p f topic qos w (on_subscribe c msg w).1
on_subscribe-IsGranted c a msg p topic qos f ls w n free open_queue room new one q e r v t h =
    let T = subscribe w.topics p.topic_path p.requested_qos (pointer w.next_sub) in
    let granted : T.0 ≡ (p.requested_qos, ok tt) =
      ap (λ x. x.0)
        (subscribe-inserted w.topics p.topic_path p.requested_qos (pointer w.next_sub) f q (λ x. cc)
          e).0 in
    let v0 = filed c a p w in
    let found = (retained w.topics p.topic_path []).1 in
    let ack = ack_of msg.packet_identifier p in
    let conn : v0.conns c ≡ record (w.conns c) {
      subscription = store (w.conns c).subscription p.topic_path w.next_sub;
    } =
      rw (==_refl c) refl in
    let is_open = ap (λ (k : Conn). k.queue_closed) conn ∙ open_queue in
    let first = send-Queued c ack v0 is_open (rw conn (omega arith)) in
    let len = length-append (w.conns c).queue (ack ∷ []) in
    let both =
      then-Queued c (ack ∷ []) (map publish found) v0 (send c ack v0)
        (for_each (λ m. send c (publish m)) found) first
        (for_each-Queued c found (send c ack v0).1
          (ap (λ (k : Conn). k.queue_closed) first.conn ∙ is_open)
          (rw (first.conn, conn) (omega arith))) in
    let result =
      on_subscribe-filed c a msg p w one (subscribe_one-filed c a p w n free new granted) in
    (
      ap (λ x. x.0) result ∙ both.fine,
      record {
        found = found;
        queued =
            ap (λ x. (x.1.conns c).queue) result
            ∙ ap (λ (k : Conn). k.queue) both.conn
            ∙ ap (λ (k : Conn). k.queue ++ ack ∷ map publish found) conn;
        exact = λ m. (retained_iff w.topics p.topic_path f m r e).1;
        client =
            ap (λ x. (x.1.subs w.next_sub).client) result
            ∙ ap (λ g. (g w.next_sub).client) both.subs
            ∙ rw (==_refl w.next_sub) refl;
        receives =
            subst (λ m. Has (pointer w.next_sub) (subscribers m topic qos).1)
              (sym (ap (λ x. x.1.topics) result ∙ both.topics))
              (subscribe-subscribers w.topics p.topic_path topic p.requested_qos qos
                (pointer w.next_sub) f ls r q v (λ x. cc) e t h).1;
      },
    )

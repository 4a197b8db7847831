-- ===== src/Tests/Running.antt =====
-- The theorems on runs of server/ and on its publications at a small broker.
use magic_mqtt.Prelude.{
  ℕ, ◌≡◌, ◌<◌, ◌≤◌, ◌↔◌, refl, Bool-cases, some, inl, inr, List, [], ◌∷◌, ◌++◌, length, ◌==◌, arith,
}
use magic_mqtt.Packet.Subscribe.{payload_size}
use magic_mqtt.Packet.Publish
use magic_mqtt.Packet.Publish.{Publish}
use magic_mqtt.Message.{publish, subscribe, write_packet}
use magic_mqtt.Message.RoundTrip.{parse-write_subscribe}
use magic_mqtt.Topics.Level.{same, next_topic_level, scan}
use magic_mqtt.Topics.Levels.{levels, topic_levels}
use magic_mqtt.Topics.Trie.{get, put}
use magic_mqtt.Topics.Subscription.{smatch, sinsert, match_nodes, match_qos, insert_sub}
use magic_mqtt.Topics.Value.{pointer}
use magic_mqtt.Topics.Trie.Distinct.{IsDistinct}
use magic_mqtt.Topics.Memory.{new_mem, subscribers}
use magic_mqtt.Topics.Memory
use magic_mqtt.Topics.Memory.Calls
use magic_mqtt.Sessions.Session.{new_session}
use magic_mqtt.Sessions.Session.Offline
use magic_mqtt.Sessions.StringMap.{lookup, store}
use magic_mqtt.Sessions.Group.{new_group, group_new, group_get}
use magic_mqtt.Sessions.Group.Own
use magic_mqtt.Server.State.{Board, new_broker_conn}
use magic_mqtt.Server.Action.{panic, send}
use magic_mqtt.Server.Publish.{send_publish_message, on_publish}
use magic_mqtt.Server.Publish.Answered.{answered, kept, on_publish-HandedOut}
use magic_mqtt.Server.Publish.Delivery.{IsLive}
use magic_mqtt.Server.Publish.Handed.{HandedOut}
use magic_mqtt.Server.Publish.Exact.{send_publish_message-HandedOut}
use magic_mqtt.Server.Publish.Receivers.{Receives, send_publish_message_iff}
use magic_mqtt.Server.Subscribe.Unconnected.{step-subscribe}
use magic_mqtt.Server.Writer.{serve_conn, handle_connection, kick}
use magic_mqtt.Server.Step.{step, accepted, read, kicked, Reached, here, next}
use magic_mqtt.Server.Sound.{IsSound}
use magic_mqtt.Server.Sound.Turns.{Reached_bounds}
use magic_mqtt.Tests.Codec.{runtime, request, subscription, spawned-IsHeader}
use magic_mqtt.Tests.Server.{name, idle, unconnected, in_use, broker}

abbrev sent : List ℕ
sent = (write_packet (subscribe subscription) []).1 ++ 9 ∷ []

abbrev waiting : Board (Unit {0})
waiting = broker (record unconnected { incoming = sent }) in_use idle []

step-subscribe_example : (step runtime (read 0) waiting).0 ≡ panic
unfolding payload_size
step-subscribe_example =
    step-subscribe runtime 0
      (let h = record (subscription.fixed_header) { remaining_length = 8 } in
        record subscription { fixed_header = h })
      request [] (9 ∷ []) waiting refl refl
      (parse-write_subscribe runtime 100 subscription (9 ∷ []) spawned-IsHeader refl
        (omega arith, tt) (omega arith) (inr (omega arith))).1

abbrev pub news : Publish
news = record (Publish.spawn) { topic_name = b't' ∷ []; payload = 1 ∷ [] }

-- The session of "a" writes to the connection 1, and has a subscription to "t".
abbrev subscribed : Board (Unit {0})
subscribed =
    record (broker unconnected in_use (record idle { on_write = some 1 }) ((name, 0) ∷ [])) {
      topics = (Memory.subscribe new_mem (b't' ∷ []) 1 (pointer 0)).1;
    }

subscribed-IsLive : (n : ℕ) → n ≤ 2 → IsLive n subscribed
subscribed-IsLive n small = record {
  free = λ a. refl;
  queue_open = λ a c e. elim (Bool-cases (c == 0)) [ inl t ↦ rw t refl | inr t ↦ rw t refl ];
  room = λ a c e. elim (Bool-cases (c == 0)) [
    | inl t ↦ rw t (omega arith)
    | inr t ↦ rw t (omega arith)
  ];
}

send_publish_message-HandedOut_example :
    HandedOut (publish news) ((pointer 0, 0) ∷ []) subscribed (send_publish_message news subscribed)
unfolding subscribers smatch Memory.subscribe sinsert next_topic_level scan get match_nodes put same
    match_qos insert_sub
send_publish_message-HandedOut_example =
    send_publish_message-HandedOut news ((pointer 0, 0) ∷ []) subscribed
      (subscribed-IsLive 1 (omega arith)) refl

-- The same publication, with QoS 1 and the retain flag.
abbrev pub loud : Publish
loud =
    let h = record (news.fixed_header) { qos_level = 1; retain = 1 } in
    record news { fixed_header = h; packet_identifier = 7 }

on_publish-HandedOut_example :
    HandedOut
      (publish loud)
      ((pointer 0, 1) ∷ [])
      (kept loud (answered 0 loud subscribed))
      (on_publish 0 loud subscribed)
unfolding subscribers smatch Memory.subscribe sinsert next_topic_level scan get match_nodes put same
    match_qos insert_sub
on_publish-HandedOut_example =
    on_publish-HandedOut 0 loud ((pointer 0, 1) ∷ []) subscribed (subscribed-IsLive 2 (omega arith))
      refl (omega arith) (inl refl) refl

send_publish_message_iff_example :
    (length (subscribed.conns 1).queue
      < length ((send_publish_message news subscribed).1.conns 1).queue)
    ↔ Receives subscribed ((b't' ∷ []) ∷ []) 1
unfolding topic_levels levels next_topic_level scan subscribers smatch Memory.subscribe sinsert get
    match_nodes put same match_qos insert_sub
send_publish_message_iff_example =
    send_publish_message_iff news ((b't' ∷ []) ∷ []) 1 subscribed
      (subscribed-IsLive 1 (omega arith))
      (Calls.Reached-IsDistinct subscribed.topics
        (Calls.after_subscribe Calls.start (b't' ∷ []) 1 (pointer 0)))
      refl refl

-- The client "a" has a new session; nothing else has happened.
abbrev quiet : Board (Unit {0})
quiet = record (broker unconnected unconnected idle []) {
  sessions = (group_new name 2 (new_group (λ a. new_session 2) 0)).1;
}

quiet-IsSound : IsSound quiet
unfolding group_new new_group
quiet-IsSound = record {
  topics_reached = Calls.start;
  sessions_reached = Own.created (Own.start (λ a. new_session 2) 0) name 2;
  each_reached = λ a. elim (Bool-cases (0 == a)) [
    | inl t ↦ rw t (Offline.start 2)
    | inr t ↦ rw t (Offline.start 2)
  ];
}

-- A connection is accepted, and its timer fires.
abbrev after_kick : Board (Unit {0})
after_kick = (step runtime (kicked 2) (step runtime (accepted []) quiet).1).1

quiet_after_kick : Reached runtime quiet after_kick
unfolding step serve_conn handle_connection new_broker_conn kick send
quiet_after_kick = next (next here (accepted []) tt (λ e. cc)) (kicked 2) refl (λ e. cc)

Reached_bounds_example :
    IsDistinct after_kick.topics.sroot
    × (0 < after_kick.sessions.next)
    × (length (after_kick.sessions.heap 0).offline_queue
        ≤ (after_kick.sessions.heap 0).offline_limit)
unfolding step serve_conn handle_connection new_broker_conn kick send group_new group_get new_group
    lookup store same
Reached_bounds_example =
    Reached_bounds runtime quiet after_kick name 0 quiet_after_kick quiet-IsSound refl

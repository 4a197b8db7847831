-- ===== src/Tests/Turns.antt =====
-- The theorems on turns of server/ and on its handlers of subscriptions at a small broker.
use magic_mqtt.Prelude.{
  ◌≡◌, refl, ap, false, Bool-cases, none, some, inl, inr, [], ◌∷◌, ◌++◌, ◌==◌, arith,
}
use magic_mqtt.Packet.Subscribe.{SubscribePayload}
use magic_mqtt.Packet.Unsubscribe
use magic_mqtt.Packet.Unsubscribe.{Unsubscribe}
use magic_mqtt.Packet.Publish.{Publish}
use magic_mqtt.Message.{publish, write_packet, kind, get_type}
use magic_mqtt.Packet.Publish.RoundTrip.{content}
use magic_mqtt.Message.RoundTrip.{parse-write_publish}
use magic_mqtt.Topics.Level.{mwc, same, next_topic_level, scan}
use magic_mqtt.Topics.Levels.{levels, topic_levels}
use magic_mqtt.Topics.Trie.{get, put}
use magic_mqtt.Topics.Subscription.{smatch, sinsert, match_nodes, match_qos, insert_sub}
use magic_mqtt.Topics.Value.{pointer}
use magic_mqtt.Topics.Retained.{rmatch, rinsert_or_update, all_retained}
use magic_mqtt.Topics.Memory.{new_mem, subscribers}
use magic_mqtt.Topics.Memory
use magic_mqtt.Topics.Memory.Calls
use magic_mqtt.Topics.Subscription.Match.Delivery
use magic_mqtt.Sessions.Session.{new_session}
use magic_mqtt.Sessions.StringMap.{lookup}
use magic_mqtt.Sessions.Group.{group_get}
use magic_mqtt.Server.State.{Board}
use magic_mqtt.Server.Action.{done}
use magic_mqtt.Server.Publish.Delivery.{IsLive, count}
use magic_mqtt.Server.Subscribe.{on_subscribe, on_unsubscribe}
use magic_mqtt.Server.Subscribe.Withdrawn.{IsWithdrawn, on_unsubscribe-IsWithdrawn}
use magic_mqtt.Server.Subscribe.Granted.{IsGranted, on_subscribe-IsGranted}
use magic_mqtt.Server.Step.{step, read, write}
use magic_mqtt.Server.Step.Turns.{received}
use magic_mqtt.Server.Step.Relay.{relay}
use magic_mqtt.Server.Step.Confirm.{puback_of, deliver-confirm}
use magic_mqtt.Common.MessageTable.{get_message, new_table, with_on_finish}
use magic_mqtt.Sessions.Session.Confirmation.{numbered}
use magic_mqtt.Server.Dispatch.{handle}
use magic_mqtt.Server.Dispatch.Types.{switch, switch-handle}
use magic_mqtt.Tests.Codec.{runtime, request, subscription}
use magic_mqtt.Tests.Server.{name, idle, unconnected, in_use, broker}
use magic_mqtt.Tests.Running.{news, loud}

-- The client of the connection 0 has sent the publication; the connection 1 has nothing to write.
abbrev relayed : Board (Unit {0})
relayed =
    record (broker (record unconnected { incoming = (write_packet (publish news) []).1 ++ [] })
      (record in_use { queue = [] }) (record idle { on_write = some 1 }) ((name, 0) ∷ [])) {
        topics = (Memory.subscribe new_mem (b't' ∷ []) 1 (pointer 0)).1;
      }

relayed-IsLive : IsLive 1 relayed
relayed-IsLive = record {
  free = λ a. refl;
  queue_open = λ a c e. elim (Bool-cases (c == 0)) [ inl t ↦ rw t refl | inr t ↦ rw t refl ];
  room = λ a c e. elim (Bool-cases (c == 0)) [
    | inl t ↦ rw t (omega arith)
    | inr t ↦ rw t (omega arith)
  ];
}

relay_example :
    let (r, v) = step runtime (read 0) relayed in
    let (r', u) = step runtime (write 1) v in
    (r ≡ done tt)
    × (r' ≡ done tt)
    × ((u.conns 1).outgoing ≡ (relayed.conns 1).outgoing ++ (write_packet (publish news) []).1)
unfolding subscribers smatch Memory.subscribe sinsert next_topic_level scan get match_nodes put same
    match_qos insert_sub content count group_get lookup
relay_example =
    relay runtime 0 1 0 news [] ((pointer 0, 0) ∷ []) relayed
      (record { type_fits = omega arith; qos_fits = omega arith; retain_fits = omega arith }) refl
      (refl, refl) (omega arith) (omega arith) (omega arith) (inr (omega arith)) refl relayed-IsLive
      refl refl (λ e. cc) refl refl refl

switch-handle_example :
    (kind (publish (received news)) ≡ get_type (publish (received news)))
    × (switch {A = Unit {0}} 0 (publish (received news)) ≡ handle 0 (publish (received news)))
unfolding content
switch-handle_example =
    switch-handle 0 runtime 0 ((write_packet (publish news) []).1 ++ []) (publish (received news)) (
      ap (λ p. p.0)
        (parse-write_publish runtime 0 news []
          (record { type_fits = omega arith; qos_fits = omega arith; retain_fits = omega arith })
          refl (omega arith) (omega arith) (omega arith) (inl refl)).1)

-- The client of the connection 0 has a publication in its queue, and is going to confirm it.
abbrev answering : Board (Unit {0})
answering =
    broker
      (record in_use {
        queue = publish loud ∷ [];
        incoming = (write_packet (puback_of idle.wait_ack.id) []).1 ++ [];
      })
      unconnected idle ((name, 0) ∷ [])

deliver-confirm_example :
    let id = idle.wait_ack.id in
    let (r, v) = step runtime (write 0) answering in
    let (r', u) = step runtime (read 0) v in
    (r ≡ done tt)
    × ((v.conns 0).outgoing
        ≡ (answering.conns 0).outgoing ++ (write_packet (publish (numbered loud id)) []).1)
    × (get_message (v.sessions.heap 0).wait_ack id ≡ some (publish (numbered loud id)))
    × (r' ≡ done tt)
    × (get_message (u.sessions.heap 0).wait_ack id ≡ none)
    × ((u.sessions.heap 0).wait_ack.used id ≡ false)
unfolding new_session new_table with_on_finish
deliver-confirm_example =
    deliver-confirm runtime 0 0 loud [] [] answering refl refl refl refl refl (omega arith) refl
      (inr (omega arith)) refl

-- A connected client, where a message is retained for "a/b".
abbrev kept_news : Publish
kept_news = record news { topic_name = b'a' ∷ b'/' ∷ b'b' ∷ [] }

abbrev asking : Board (Unit {0})
asking = record (broker (record in_use { queue = [] }) unconnected idle ((name, 0) ∷ [])) {
  topics = (Memory.retain new_mem kept_news).1;
}

on_subscribe-IsGranted_example :
    ((on_subscribe 0 subscription asking).0 ≡ done tt)
    × IsGranted 0 0 5 request
        ((b'a' ∷ []) ∷ mwc ∷ [])
        (b'a' ∷ [])
        0
        asking
        (on_subscribe 0 subscription asking).1
unfolding topic_levels levels next_topic_level scan lookup Memory.retained rmatch Memory.retain
    rinsert_or_update same get put all_retained
on_subscribe-IsGranted_example =
    on_subscribe-IsGranted 0 0 subscription request (b'a' ∷ []) 0 ((b'a' ∷ []) ∷ mwc ∷ [])
      ((b'a' ∷ []) ∷ []) asking refl refl refl (omega arith) refl refl refl refl
      (Calls.after_retain Calls.start kept_news) refl refl
      (Delivery.exact (b'a' ∷ []) (λ e. cc e) (Delivery.multi []))

-- The client of the connection 0 has subscribed "t", and gives it up.
abbrev given_up : SubscribePayload
given_up = record { topic_path = b't' ∷ []; requested_qos = 0 }

abbrev leaving : Board (Unit {0})
leaving =
    record (broker (record in_use { queue = []; subscription = (b't' ∷ [], 0) ∷ [] }) unconnected
      idle ((name, 0) ∷ [])) { topics = (Memory.subscribe new_mem (b't' ∷ []) 1 (pointer 0)).1 }

abbrev farewell : Unsubscribe
farewell = record (Unsubscribe.spawn) { packet_identifier = 6; payload = given_up ∷ [] }

on_unsubscribe-IsWithdrawn_example :
    ((on_unsubscribe 0 farewell leaving).0 ≡ done tt)
    × IsWithdrawn 0 0 6 given_up ((b't' ∷ []) ∷ []) leaving (on_unsubscribe 0 farewell leaving).1
unfolding topic_levels levels next_topic_level scan lookup same
on_unsubscribe-IsWithdrawn_example =
    on_unsubscribe-IsWithdrawn 0 0 0 farewell given_up ((b't' ∷ []) ∷ []) leaving refl refl refl
      (omega arith) refl refl refl

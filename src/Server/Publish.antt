-- ===== src/Server/Publish.antt =====
-- Publications: `onPublish`, `procPublish`, `SendPublishMessage` and `Will` of server/conBroker.go.
pub mod Delivery
pub mod Exact
pub mod Receivers
pub mod Handed
pub mod Answered
use magic_mqtt.Prelude.{
  ℕ, ◌%◌, Bool, true, false, Option, none, some, List, [], ◌∷◌, ltb, ◌==◌, if◌then◌else◌,
}
use magic_mqtt.Encoding.Header.{FixedHeader}
use magic_mqtt.Packet.Publish
use magic_mqtt.Packet.Publish.{Publish}
use magic_mqtt.Packet.Puback
use magic_mqtt.Packet.Pubrec
use magic_mqtt.Packet.Connect.{Will}
use magic_mqtt.Message.{Message, publish, puback, pubrec}
use magic_mqtt.Topics.Level.{Outcome, ok, err, stuck}
use magic_mqtt.Topics.Value.{Value, nothing, pointer, func, string, number}
use magic_mqtt.Topics.Subscription.{Subs, Found}
use magic_mqtt.Topics.Memory.{subscribers, retain}
use magic_mqtt.Sessions.Session.{Session, Write, answered, passed, write_message}
use magic_mqtt.Sessions.Group.{group_get}
use magic_mqtt.Server.State.{Board, Conn}
use magic_mqtt.Server.Action.{
  Action, pure, panics, blocks, gets, modify, ◌>>=◌, ◌>>◌, for_each, get_conn, put_conn, send,
  with_session, lock, unlock,
}

abbrev pub will_publish : Will → Publish
will_publish will =
    let m = Publish.spawn in
    let h : FixedHeader = record (m.fixed_header) { qos_level = will.qos } in
    record m { fixed_header = h; topic_name = will.topic; payload = will.message }

module _ {A : Type 0} where
  abbrev pub written : Message → Write ℕ → Action A (Unit {0})
  written msg (answered e) = pure tt
  written msg (passed c) = send c msg

  -- `ss.WriteMessage(msg)` on the session at an address: the function of the connection is called
  -- while the lock is held. Its error is logged.
  unfoldable pub session_write : ℕ → Message → Action A (Unit {0})
  session_write a msg = do lock a; r ← with_session a (write_message msg); written msg r; unlock a

  abbrev pub write_found : Message → Option ℕ → Action A (Unit {0})
  write_found msg none = pure tt
  write_found msg (some a) = session_write a msg

  -- The body of the loop over the subscribers; only a `*common.Subscription` passes its test.
  unfoldable pub distribute : Message → Value → Action A (Unit {0})
  distribute msg (pointer p) = do
    client ← gets (λ w. (w.subs p).client)
    a ← gets (λ w. group_get client w.sessions)
    write_found msg a
  distribute msg _ = pure tt

  abbrev pub distribute_all : Message → Found → Action A (Unit {0})
  distribute_all msg (ok u, subs) = for_each (λ (e : Value × ℕ). distribute msg e.0) subs
  distribute_all msg (err e, subs) = pure tt
  distribute_all msg (stuck, subs) = pure tt

  -- `SendPublishMessage`
  unfoldable pub send_publish_message : Publish → Action A (Unit {0})
  send_publish_message msg = do
    found ← gets (λ w. subscribers w.topics msg.topic_name (msg.fixed_header.qos_level % 256))
    distribute_all (publish msg) found

  -- `Retain`, whose error is logged.
  abbrev pub keep_retained : Publish → Board A → Board A
  keep_retained msg w = record w { topics = (retain w.topics msg).1 }

  -- `procPublish`; behind the retaining it has the lines of `SendPublishMessage`.
  unfoldable pub proc_publish : Publish → Action A (Unit {0})
  proc_publish msg =
      if ltb 0 msg.fixed_header.retain
      then modify (keep_retained msg) >> send_publish_message msg
      else send_publish_message msg

  -- `onPublish`
  unfoldable pub on_publish : ℕ → Publish → Action A (Unit {0})
  on_publish c msg =
      let qos = msg.fixed_header.qos_level % 256 in
      if qos == 0
      then proc_publish msg
      else if qos == 1
      then send c (puback (record Puback.spawn { packet_identifier = msg.packet_identifier }))
        >> proc_publish msg
      else if qos == 2
      then send c (pubrec (record Pubrec.spawn { packet_identifier = msg.packet_identifier }))
        >> proc_publish msg
      else pure tt

  -- `Will`, where there is one.
  unfoldable pub send_will : Option Will → Action A (Unit {0})
  send_will none = pure tt
  send_will (some will) = send_publish_message (will_publish will)

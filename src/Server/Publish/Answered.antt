-- ===== src/Server/Publish/Answered.antt =====
-- `onPublish` of server/conBroker.go for a publication that is acknowledged.
use magic_mqtt.Prelude.{
  ℕ, ◌%◌, ◌≡◌, refl, sym, ap, subst, ◌∙◌, false, suc, ◌<◌, length, length-append, arith, Bool-cases,
  ◌⊎◌, inl, inr, List, [], ◌∷◌, ◌++◌, ltb, ◌==◌, if◌then◌else◌,
}
use magic_mqtt.Message.{Message, publish, puback, pubrec}
use magic_mqtt.Packet.Puback
use magic_mqtt.Packet.Pubrec
use magic_mqtt.Packet.Publish.{Publish}
use magic_mqtt.Topics.Level.{ok}
use magic_mqtt.Topics.Subscription.{Subs}
use magic_mqtt.Topics.Memory.{MemTopics, subscribers, retain}
use magic_mqtt.Server.State.{Board}
use magic_mqtt.Server.Action.{Result, bind, set_conn}
use magic_mqtt.Server.Action.States.{send_open}
use magic_mqtt.Server.Publish.{keep_retained, proc_publish, on_publish}
use magic_mqtt.Server.Publish.Delivery.{IsLive, set_conn-IsLive}
use magic_mqtt.Server.Publish.Handed.{HandedOut}
use magic_mqtt.Server.Publish.Exact.{send_publish_message-HandedOut}

-- The answer for QoS 1, and for QoS 2.
abbrev pub answer_to : ℕ → ℕ → Message
answer_to qos id =
    if qos == 1
    then puback (record Puback.spawn { packet_identifier = id })
    else pubrec (record Pubrec.spawn { packet_identifier = id })

subscribers-retain :
    (m : MemTopics) (msg : Publish) (topic : List ℕ) (qos : ℕ)
    → subscribers (retain m msg).1 topic qos ≡ subscribers m topic qos
unfolding subscribers retain
subscribers-retain m msg topic qos = refl

module _ {A : Type 0} where
  -- The state with the answer in the queue of the connection.
  abbrev pub answered : ℕ → Publish → Board A → Board A
  answered c msg w =
      let k = w.conns c in
      let m = answer_to (msg.fixed_header.qos_level % 256) msg.packet_identifier in
      set_conn c (record k { queue = k.queue ++ m ∷ [] }) w

  -- The state with the publication among the retained messages, if it asks for that.
  abbrev pub kept : Publish → Board A → Board A
  kept msg w = if ltb 0 msg.fixed_header.retain then keep_retained msg w else w

  pub proc_publish-HandedOut :
      (msg : Publish) (es : Subs) (w : Board A)
      → IsLive (length es) w
      → subscribers w.topics msg.topic_name (msg.fixed_header.qos_level % 256) ≡ (ok tt, es)
      → HandedOut (publish msg) es (kept msg w) (proc_publish msg w)
  unfolding proc_publish
  proc_publish-HandedOut msg es w live e = elim (Bool-cases (ltb 0 msg.fixed_header.retain)) [
    | inl t ↦ rw t (
        send_publish_message-HandedOut msg es (keep_retained msg w)
          (record { free = live.free; queue_open = live.queue_open; room = live.room })
          (subscribers-retain w.topics msg msg.topic_name (msg.fixed_header.qos_level % 256) ∙ e))
    | inr t ↦ rw t (send_publish_message-HandedOut msg es w live e)
  ]

  on_publish-answered :
      (c : ℕ) (msg : Publish) (w : Board A)
      → (w.conns c).queue_closed ≡ false
      → length (w.conns c).queue < (w.conns c).capacity
      → (msg.fixed_header.qos_level % 256 ≡ 1) ⊎ (msg.fixed_header.qos_level % 256 ≡ 2)
      → on_publish c msg w ≡ proc_publish msg (answered c msg w)
  unfolding on_publish
  on_publish-answered c msg w o r (inl q) = rw q (
      ap (λ (p : Result (Unit {0}) × Board A). bind p (λ _. proc_publish msg))
        (send_open c (answer_to 1 msg.packet_identifier) w o r))
  on_publish-answered c msg w o r (inr q) = rw q (
      ap (λ (p : Result (Unit {0}) × Board A). bind p (λ _. proc_publish msg))
        (send_open c (answer_to 2 msg.packet_identifier) w o r))

  -- `onPublish` with QoS 1 or 2, in a state where no lock is taken and the queues that sessions write
  -- to are open, each with room for a message more than `Subscribers` finds entries, on a connection
  -- with an open queue that has room for a message, returns, where `Subscribers` finds `es`: first
  -- the PUBACK or PUBREC with the identifier of the publication is put at the end of the queue of the
  -- connection, and a publication with the retain flag goes to `Retain`; then each connection gets
  -- the publication at the end of its queue once for each of `es` whose client has a session that
  -- writes to it, each session without a writer has it pushed to its offline queue once for each of
  -- its own, and nothing else changes of connections, sessions, their locks, the group and the
  -- provider.
  pub on_publish-HandedOut :
      (c : ℕ) (msg : Publish) (es : Subs) (w : Board A)
      → IsLive (suc (length es)) w
      → (w.conns c).queue_closed ≡ false
      → length (w.conns c).queue < (w.conns c).capacity
      → (msg.fixed_header.qos_level % 256 ≡ 1) ⊎ (msg.fixed_header.qos_level % 256 ≡ 2)
      → subscribers w.topics msg.topic_name (msg.fixed_header.qos_level % 256) ≡ (ok tt, es)
      → HandedOut (publish msg) es (kept msg (answered c msg w)) (on_publish c msg w)
  on_publish-HandedOut c msg es w live o r q e =
      let k = w.conns c in
      let m = answer_to (msg.fixed_header.qos_level % 256) msg.packet_identifier in
      subst (HandedOut (publish msg) es (kept msg (answered c msg w)))
        (sym (on_publish-answered c msg w o r q))
        (proc_publish-HandedOut msg es (answered c msg w)
          (set_conn-IsLive (suc (length es)) (length es) c (record k { queue = k.queue ++ m ∷ [] })
            w refl refl (omega arith) (let len = length-append k.queue (m ∷ []) in omega arith)
            live)
          e)

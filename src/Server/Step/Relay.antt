-- ===== src/Server/Step/Relay.antt =====
-- A publication on its way through the broker, from the bytes that one connection has sent to those
-- that are written to another.
use magic_mqtt.Prelude.{
  ℕ, suc, ◌+◌, ◌≤◌, ◌<◌, ◌≡◌, ◌≢◌, refl, ap, ◌∙◌, false, List, [], ◌∷◌, ◌++◌, length, ltb,
  replicate, arith, if◌then◌else◌,
}
use magic_mqtt.Encoding.PType
use magic_mqtt.Encoding.Stream
use magic_mqtt.Encoding.Header.{header_write_to}
use magic_mqtt.Encoding.Header.RoundTrip.{IsHeader}
use magic_mqtt.Packet.Publish
use magic_mqtt.Packet.Publish.{Publish}
use magic_mqtt.Packet.Publish.RoundTrip.{content}
use magic_mqtt.Message.{Runtime, publish, parse, write_packet}
use magic_mqtt.Message.RoundTrip.{Allows, parse-write_publish}
use magic_mqtt.Topics.Level.{ok}
use magic_mqtt.Topics.Subscription.{Subs}
use magic_mqtt.Topics.Memory.{subscribers}
use magic_mqtt.Server.State.{Board, Conn, connected}
use magic_mqtt.Server.Action.{done}
use magic_mqtt.Server.Publish.{on_publish}
use magic_mqtt.Server.Publish.Delivery.{IsLive, count, sent_to, more_in, set_conn-IsLive}
use magic_mqtt.Server.Step.{step, read, write}
use magic_mqtt.Server.Step.Turns.{
  IsPlain, received, on_publish-plain, taken, taken_self, taken_other, read-publish, write-publish,
  flushed_conn,
}

parse-received :
    (rt : Runtime) (max_len : ℕ) (m : Publish) (rest : List ℕ)
    → IsHeader m.fixed_header
    → m.fixed_header.type ≡ PType.publish
    → m.fixed_header.qos_level ≡ 0
    → length m.topic_name + 2 < 65536
    → 1 ≤ length (content m)
    → 2 + length (content m) < 0x20_0000
    → Allows max_len (2 + length (content m))
    → parse rt max_len ((write_packet (publish m) []).1 ++ rest)
      ≡ (Stream.ok (publish (received m)), rest)
parse-received rt max_len m rest v t z k lo hi a =
    (parse-write_publish rt max_len m rest v t k lo hi a).1
    ∙ ap
        (λ b.
          let h = record (m.fixed_header) { remaining_length = 2 + length (content m) } in
          let id = if b then m.packet_identifier else 0 in
          (Stream.ok (publish (record m { fixed_header = h; packet_identifier = id })), rest))
        (ap (λ n. ltb 0 n) z)

write_packet-received :
    (m : Publish)
    → m.fixed_header.qos_level ≡ 0
    → (write_packet (publish (received m)) []).1 ≡ (write_packet (publish m) []).1
unfolding write_packet Publish.write_to header_write_to
write_packet-received m z =
    let e : ltb 0 m.fixed_header.qos_level ≡ false = ap (λ n. ltb 0 n) z in rw e refl

-- A publication with QoS 0 and without the retain flag, of a form that `Parse` gives back, whose bytes
-- are the next that the connection `c` has sent; no lock is taken and the queues that sessions write
-- to are open, each with room for as many messages as `Subscribers` finds entries; it finds `es`, of which one or more have a session that writes to another
-- connection `d` with an empty queue; both are connected. Then a turn of the goroutine that reads from
-- `c` and one of that which writes to `d` return, and `d` has been sent the bytes that `c` sent.
pub relay :
    {A : Type 0} (rt : Runtime) (c d n : ℕ) (m : Publish) (rest : List ℕ) (es : Subs) (w : Board A)
    → IsHeader m.fixed_header
    → m.fixed_header.type ≡ PType.publish
    → IsPlain m
    → length m.topic_name + 2 < 65536
    → 1 ≤ length (content m)
    → 2 + length (content m) < 0x20_0000
    → Allows w.deploy.message_size (2 + length (content m))
    → (w.conns c).incoming ≡ (write_packet (publish m) []).1 ++ rest
    → IsLive (length es) w
    → subscribers w.topics m.topic_name 0 ≡ (ok tt, es)
    → count (sent_to w d) es ≡ suc n
    → c ≢ d
    → (w.conns d).queue ≡ []
    → (w.conns c).state ≡ connected
    → (w.conns d).state ≡ connected
    → let (r, v) = step rt (read c) w in
      let (r', u) = step rt (write d) v in
      (r ≡ done tt)
      × (r' ≡ done tt)
      × ((u.conns d).outgoing ≡ (w.conns d).outgoing ++ (write_packet (publish m) []).1)
relay rt c d n m rest es w v t (z, keep) k lo hi a input live found sent apart empty sc sd =
    let m' = received m in
    let w1 = taken c rest w in
    let p = on_publish c m' w1 in
    let (fine, conns, heap, ss, topics, locked) =
      on_publish-plain c m' es w1 (z, keep)
        (set_conn-IsLive (length es) (length es) c (record (w.conns c) { incoming = rest }) w refl
          refl (omega arith) (omega arith) live)
        found in
    let parsed =
      ap (parse rt w.deploy.message_size) input
      ∙ parse-received rt w.deploy.message_size m rest v t z k lo hi a in
    let msg = publish m' in
    let self = ap (λ (k : Conn). k.state) (taken_self c rest w) in
    let other = taken_other c d rest w apart in
    let first =
      read-publish rt c m' rest w parsed fine (ap (λ (k : Conn). k.state) (conns c) ∙ self ∙ sc) in
    let queued : (p.1.conns d).queue ≡ msg ∷ replicate n msg =
      ap (λ (k : Conn). k.queue) (conns d)
      ∙ ap (λ (k : Conn). k.queue ++ replicate (count (sent_to w1 d) es) msg) other
      ∙ ap (λ q. q ++ replicate (count (sent_to w1 d) es) msg) empty
      ∙ ap (λ j. replicate j msg) sent in
    let state = ap (λ (k : Conn). k.state) (conns d ∙ ap (more_in _ msg) other) ∙ sd in
    let outgoing = ap (λ (k : Conn). k.outgoing) (conns d ∙ ap (more_in _ msg) other) in
    let both =
      ap (λ q. step rt (write d) q.1) first
      ∙ write-publish d m' (replicate n msg) p.1 rt queued state z t in
    (
      ap (λ q. q.0) first,
      ap (λ q. q.0) both,
      ap (λ q. (q.1.conns d).outgoing) both
          ∙ ap (λ (k : Conn). k.outgoing) (flushed_conn d m' (replicate n msg) p.1)
          ∙ ap (λ o. o ++ (write_packet msg []).1) outgoing
          ∙ ap (λ b. (w.conns d).outgoing ++ b) (write_packet-received m z),
    )

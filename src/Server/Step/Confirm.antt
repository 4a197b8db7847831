-- ===== src/Server/Step/Confirm.antt =====
-- A publication above QoS 0 in the queue of a connection, through the goroutine of
-- server/handler.go that writes and, with its PUBACK, through the one that reads.
use magic_mqtt.Prelude.{
  ℕ, ◌<◌, ◌≡◌, refl, ap, ◌∙◌, true, false, none, some, Option, List, [], ◌∷◌, ◌++◌, ltb, ==_refl,
  arith, if◌then◌else◌,
}
use magic_mqtt.Encoding.PType
use magic_mqtt.Encoding.Stream
use magic_mqtt.Packet.Publish.{Publish}
use magic_mqtt.Packet.Puback
use magic_mqtt.Packet.Puback.{Puback}
use magic_mqtt.Message.{Message, Runtime, publish, puback, parse, write_packet, write_message_to}
use magic_mqtt.Message.RoundTrip.{Allows, with_length, parse-write_ack, write_message_to-kind}
use magic_mqtt.Common.MessageTable.{get_message}
use magic_mqtt.Sessions.Session.{Session, register_message, unref_message}
use magic_mqtt.Sessions.Session.Confirmation.{numbered, unref_message-register_message}
use magic_mqtt.Server.State.{Board, Conn, connected}
use magic_mqtt.Server.Action.{done, bind, ◌>>=◌, set_conn, set_session}
use magic_mqtt.Server.Writer.{
  is_open, numbered_in, written_bytes, keep_for, take_out, take_next, write_turn,
}
use magic_mqtt.Server.Dispatch.{handle, on_puback, unref_in}
use magic_mqtt.Encoding.Header.RoundTrip.{IsHeader}
use magic_mqtt.Encoding.Header.{of_type}
use magic_mqtt.Server.Step.{settle_turn, stop_writer, step, read, write}
use magic_mqtt.Server.Step.Turns.{taken, taken_self, read-message, behind, behind_conn}

module _ {A : Type 0} (d a : ℕ) (m : Publish) (ms : List Message) (w : Board A) where
  session : Session ℕ
  session = w.sessions.heap a

  sent_as : Publish
  sent_as = (register_message m session).1

  -- The state with the publication registered, and with it written.
  registered : Board A
  registered = set_session a (register_message m session).2 (behind d m ms w)

  delivered : Board A
  delivered =
      let k = w.conns d in
      set_conn d
        (record k { queue = ms; outgoing = k.outgoing ++ (write_packet (publish sent_as) []).1 })
        registered

  numbered_in-registered :
      ltb 0 m.fixed_header.qos_level ≡ true
      → numbered_in (some a) (publish m) (behind d m ms w) ≡ (done (publish sent_as), registered)
  unfolding registered sent_as session behind
  numbered_in-registered q = rw q refl

  write_at :
      (k : Conn)
      → k.state ≡ connected
      → k.session ≡ some a
      → ltb 0 m.fixed_header.qos_level ≡ true
      → sent_as.fixed_header.type ≡ PType.publish
      → (if is_open k.state
            then (numbered_in k.session (publish m) >>= λ m'.
                written_bytes d (write_message_to m' []))
            else keep_for k.session (publish m))
          (behind d m ms w)
        ≡ written_bytes d (Stream.ok (write_packet (publish sent_as) [])) registered
  write_at k s n q t =
      ap
        (λ o.
          (if is_open o
              then (numbered_in k.session (publish m) >>= λ m'.
                  written_bytes d (write_message_to m' []))
              else keep_for k.session (publish m))
            (behind d m ms w))
        s
      ∙ ap
          (λ o.
            bind (numbered_in o (publish m) (behind d m ms w))
              (λ m'. written_bytes d (write_message_to m' [])))
          n
      ∙ ap (λ p. bind p (λ m'. written_bytes d (write_message_to m' []))) (numbered_in-registered q)
      ∙ ap (λ r. written_bytes d r registered) (write_message_to-kind (publish sent_as) [] t)

  write-delivered :
      (rt : Runtime)
      → (w.conns d).queue ≡ publish m ∷ ms
      → (w.conns d).state ≡ connected
      → (w.conns d).session ≡ some a
      → ltb 0 m.fixed_header.qos_level ≡ true
      → sent_as.fixed_header.type ≡ PType.publish
      → step rt (write d) w ≡ (done tt, delivered)
  unfolding step write_turn take_out delivered registered behind
  write-delivered rt q s n z t =
      ap (λ qs. settle_turn (stop_writer d) (take_next d (w.conns d) qs w)) q
      ∙ ap (settle_turn (stop_writer d)) (
          write_at ((behind d m ms w).conns d)
            (ap (λ (k : Conn). k.state) (behind_conn d m ms w) ∙ s)
            (ap (λ (k : Conn). k.session) (behind_conn d m ms w) ∙ n) z t)
      ∙ ap
          (λ (k : Conn). (
            done tt,
            set_conn d (record k { outgoing = k.outgoing ++ (write_packet (publish sent_as) []).1 })
                registered,
          ))
          (behind_conn d m ms w)

  delivered_conn : delivered.conns d ≡ record (w.conns d) {
    queue = ms;
    outgoing = (w.conns d).outgoing ++ (write_packet (publish sent_as) []).1;
  }
  unfolding delivered
  delivered_conn = rw (==_refl d)

  delivered_session : delivered.sessions.heap a ≡ (register_message m session).2
  unfolding delivered registered
  delivered_session = rw (==_refl a)

-- The PUBACK for an identifier.
abbrev pub puback_of : ℕ → Message
puback_of id = puback (record Puback.spawn { packet_identifier = id })

module _ {A : Type 0} (d a id : ℕ) (rest : List ℕ) (w : Board A) where
  confirmed : Board A
  confirmed = set_session a (unref_message id (w.sessions.heap a)) (taken d rest w)

  unref-confirmed :
      (n : Option ℕ) → n ≡ some a → unref_in n id (taken d rest w) ≡ (done tt, confirmed)
  unfolding confirmed
  unref-confirmed n e = rw e refl

  confirmed_session : confirmed.sessions.heap a ≡ unref_message id (w.sessions.heap a)
  unfolding confirmed
  confirmed_session = rw (==_refl a)

  read-confirmed :
      (rt : Runtime)
      → Allows w.deploy.message_size 2
      → (w.conns d).incoming ≡ (write_packet (puback_of id) []).1 ++ rest
      → (w.conns d).state ≡ connected
      → (w.conns d).session ≡ some a
      → step rt (read d) w ≡ (done tt, confirmed)
  unfolding handle on_puback confirmed
  read-confirmed rt allowed input s n =
      let spawned : IsHeader (of_type PType.puback 0) = record {
        type_fits = omega arith;
        qos_fits = omega arith;
        retain_fits = omega arith;
      } in
      let parsed =
        ap (parse rt w.deploy.message_size) input
        ∙ (parse-write_ack rt w.deploy.message_size (puback_of id) rest (spawned, refl)
            allowed).1 in
      let own = taken_self d rest w in
      let result =
        unref-confirmed ((taken d rest w).conns d).session (ap (λ (k : Conn). k.session) own ∙ n) in
      read-message rt d (with_length 2 (puback_of id)) rest w parsed (ap (λ q. q.0) result)
        (ap (λ q. (q.1.conns d).state) result ∙ ap (λ (k : Conn). k.state) own ∙ s)
      ∙ ap (λ q. (done tt, q.1)) result

-- A connection with a session, connected, with a publication above QoS 0 in front
-- of its queue; the next identifier of the session is free and below 65535, and the client is going
-- to answer with the PUBACK for it. Then a turn of the goroutine that writes sends the publication
-- with that identifier, under which the session keeps it; a turn of the one that reads takes the
-- PUBACK, and the session keeps it no more and the identifier is free again.
pub deliver-confirm :
    {A : Type 0} (rt : Runtime) (d a : ℕ) (m : Publish) (ms : List Message) (rest : List ℕ)
    (w : Board A)
    → let id = (w.sessions.heap a).wait_ack.id in
      (w.conns d).queue ≡ publish m ∷ ms
      → (w.conns d).state ≡ connected
      → (w.conns d).session ≡ some a
      → ltb 0 m.fixed_header.qos_level ≡ true
      → m.fixed_header.type ≡ PType.publish
      → id < 65535
      → (w.sessions.heap a).wait_ack.used id ≡ false
      → Allows w.deploy.message_size 2
      → (w.conns d).incoming ≡ (write_packet (puback_of id) []).1 ++ rest
      → let (r, v) = step rt (write d) w in
        let (r', u) = step rt (read d) v in
        (r ≡ done tt)
        × ((v.conns d).outgoing
            ≡ (w.conns d).outgoing ++ (write_packet (publish (numbered m id)) []).1)
        × (get_message (v.sessions.heap a).wait_ack id ≡ some (publish (numbered m id)))
        × (r' ≡ done tt)
        × (get_message (u.sessions.heap a).wait_ack id ≡ none)
        × ((u.sessions.heap a).wait_ack.used id ≡ false)
unfolding sent_as delivered registered behind session
deliver-confirm rt d a m ms rest w q s n z t low unused allowed input =
    let s0 = w.sessions.heap a in
    let id = s0.wait_ack.id in
    let (told, numbering, kept, gone, freed) = unref_message-register_message s0 m low unused in
    let v = delivered d a m ms w in
    let conn = delivered_conn d a m ms w in
    let kept_by = delivered_session d a m ms w in
    let first =
      write-delivered d a m ms w rt q s n z
        (ap (λ (x : Publish). x.fixed_header.type) numbering ∙ t) in
    let second =
      read-confirmed d a id rest v rt allowed (ap (λ (k : Conn). k.incoming) conn ∙ input)
        (ap (λ (k : Conn). k.state) conn ∙ s) (ap (λ (k : Conn). k.session) conn ∙ n) in
    let both = ap (λ q. step rt (read d) q.1) first ∙ second in
    let unref_by = confirmed_session d a id rest v ∙ ap (unref_message id) kept_by in
    (
      ap (λ q. q.0) first,
      ap (λ q. (q.1.conns d).outgoing) first
          ∙ ap (λ (k : Conn). k.outgoing) conn
          ∙ ap (λ (x : Publish). (w.conns d).outgoing ++ (write_packet (publish x) []).1) numbering,
      ap (λ q. get_message (q.1.sessions.heap a).wait_ack id) first
          ∙ ap (λ (x : Session ℕ). get_message x.wait_ack id) kept_by
          ∙ kept,
      ap (λ q. q.0) both,
      ap (λ q. get_message (q.1.sessions.heap a).wait_ack id) both
          ∙ ap (λ (x : Session ℕ). get_message x.wait_ack id) unref_by
          ∙ gone,
      ap (λ q. (q.1.sessions.heap a).wait_ack.used id) both
          ∙ ap (λ (x : Session ℕ). x.wait_ack.used id) unref_by
          ∙ freed,
    )

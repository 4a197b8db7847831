-- ===== src/Server/Step/Turns.antt =====
-- A turn of each goroutine of server/handler.go at a publication that is not acknowledged.
use magic_mqtt.Prelude.{
  ℕ, ◌+◌, ◌%◌, ◌≡◌, ◌≢◌, refl, sym, ap, subst, ◌∙◌, true, false, Bool-cases, inl, inr, Option, none,
  some, List, [], ◌∷◌, ◌++◌, length, ltb, ==_refl, ==_iff, ◌==◌, if◌then◌else◌,
}
use magic_mqtt.Encoding.PType
use magic_mqtt.Encoding.Stream
use magic_mqtt.Packet.Publish.{Publish}
use magic_mqtt.Packet.Publish.RoundTrip.{content}
use magic_mqtt.Message.{Message, Runtime, publish, parse, write_packet, write_message_to}
use magic_mqtt.Message.RoundTrip.{write_message_to-kind}
use magic_mqtt.Topics.Level.{ok}
use magic_mqtt.Topics.Subscription.{Subs}
use magic_mqtt.Topics.Memory.{subscribers}
use magic_mqtt.Server.State.{Board, Conn, State, connected}
use magic_mqtt.Server.Action.{Result, done, panic, blocked, bind, ◌>>=◌, set_conn}
use magic_mqtt.Server.Publish.{keep_retained, proc_publish, on_publish}
use magic_mqtt.Server.Publish.Delivery.{IsLive}
use magic_mqtt.Server.Publish.Handed.{HandedOut}
use magic_mqtt.Server.Publish.Answered.{proc_publish-HandedOut}
use magic_mqtt.Server.Dispatch.{handle, go_on, parse_message, read_turn}
use magic_mqtt.Server.Writer.{
  is_open, numbered_in, written_bytes, keep_for, take_out, take_next, write_turn,
}
use magic_mqtt.Server.Step.{settle, settle_turn, stop_writer, step, read, write}

-- A publication with QoS 0 and without the retain flag.
abbrev pub IsPlain : Publish → Type 0
IsPlain m = (m.fixed_header.qos_level ≡ 0) × (m.fixed_header.retain ≡ 0)

-- What `Parse` makes of one.
abbrev pub received : Publish → Publish
received m =
    let h = record (m.fixed_header) { remaining_length = 2 + length (content m) } in
    record m { fixed_header = h; packet_identifier = 0 }

module _ {A : Type 0} where
  on_publish-proc_publish :
      (c : ℕ) (m : Publish) (w : Board A)
      → (m.fixed_header.qos_level % 256 == 0) ≡ true
      → on_publish c m w ≡ proc_publish m w
  unfolding on_publish
  on_publish-proc_publish c m w h = rw h refl

  pub on_publish-plain :
      (c : ℕ) (m : Publish) (es : Subs) (w : Board A)
      → IsPlain m
      → IsLive (length es) w
      → subscribers w.topics m.topic_name 0 ≡ (ok tt, es)
      → HandedOut (publish m) es w (on_publish c m w)
  on_publish-plain c m es w (q, t) live e =
      let at_zero : m.fixed_header.qos_level % 256 ≡ 0 = ap (λ n. n % 256) q in
      subst (HandedOut (publish m) es w)
        (sym (on_publish-proc_publish c m w (ap (λ n. n == 0) at_zero)))
        (subst (λ v. HandedOut (publish m) es v (proc_publish m w))
          (ap (λ r. if ltb 0 r then keep_retained m w else w) t)
          (proc_publish-HandedOut m es w live (ap (subscribers w.topics m.topic_name) at_zero ∙ e)))

  -- The state without the bytes that were read.
  abbrev pub taken : ℕ → List ℕ → Board A → Board A
  taken c rest w = set_conn c (record (w.conns c) { incoming = rest }) w

  pub taken_self :
      (c : ℕ) (rest : List ℕ) (w : Board A)
      → (taken c rest w).conns c ≡ record (w.conns c) { incoming = rest }
  taken_self c rest w = rw (==_refl c)

  pub taken_other :
      (c d : ℕ) (rest : List ℕ) (w : Board A) → c ≢ d → (taken c rest w).conns d ≡ w.conns d
  taken_other c d rest w apart = elim (Bool-cases (c == d)) [
    | inl t ↦ absurd (apart ((==_iff c d).0 t))
    | inr t ↦ rw t refl
  ]

  go_on-connected :
      (c : ℕ) (s : State) (v : Board A) → s ≡ connected → go_on c true s v ≡ (done true, v)
  go_on-connected c s v e = rw e refl

  read-done :
      (c : ℕ) (p : Result (Unit {0}) × Board A)
      → p.0 ≡ done tt
      → (p.1.conns c).state ≡ connected
      → settle c
          (bind (bind p (λ _ v. (done true, v))) (λ good v. go_on c good (v.conns c).state v))
        ≡ (done tt, p.1)
  read-done c (done u, v) e s = rw (go_on-connected c (v.conns c).state v s) refl
  read-done c (panic, v) e s = cc
  read-done c (blocked, v) e s = cc

  -- A turn of the goroutine that reads, at a message that `Parse` makes, whose handler returns.
  pub read-message :
      (rt : Runtime) (c : ℕ) (msg : Message) (rest : List ℕ) (w : Board A)
      → parse rt w.deploy.message_size (w.conns c).incoming ≡ (Stream.ok msg, rest)
      → (handle c msg (taken c rest w)).0 ≡ done tt
      → (((handle c msg (taken c rest w)).1).conns c).state ≡ connected
      → step rt (read c) w ≡ (done tt, (handle c msg (taken c rest w)).1)
  unfolding step read_turn parse_message
  read-message rt c msg rest w g e s = rw g (read-done c (handle c msg (taken c rest w)) e s)

  -- At a publication.
  pub read-publish :
      (rt : Runtime) (c : ℕ) (m : Publish) (rest : List ℕ) (w : Board A)
      → parse rt w.deploy.message_size (w.conns c).incoming ≡ (Stream.ok (publish m), rest)
      → (on_publish c m (taken c rest w)).0 ≡ done tt
      → (((on_publish c m (taken c rest w)).1).conns c).state ≡ connected
      → step rt (read c) w ≡ (done tt, (on_publish c m (taken c rest w)).1)
  unfolding handle
  read-publish rt c m rest w = read-message rt c (publish m) rest w

  numbered_in-plain :
      (session : Option ℕ) (m : Publish) (w : Board A)
      → m.fixed_header.qos_level ≡ 0
      → numbered_in session (publish m) w ≡ (done (publish m), w)
  numbered_in-plain none m w q = refl
  numbered_in-plain (some a) m w q =
      let e : ltb 0 m.fixed_header.qos_level ≡ false = ap (λ n. ltb 0 n) q in rw e refl

  module _ (d : ℕ) (m : Publish) (ms : List Message) (w : Board A) where
    -- The state behind the message, and behind the write.
    unfoldable pub behind : Board A
    behind = set_conn d (record (w.conns d) { queue = ms }) w

    pub flushed : Board A
    flushed =
        let k = w.conns d in
        set_conn d
          (record k { queue = ms; outgoing = k.outgoing ++ (write_packet (publish m) []).1 }) behind

    pub behind_conn : behind.conns d ≡ record (w.conns d) { queue = ms }
    unfolding behind
    behind_conn = rw (==_refl d)

    write_at :
        (k : Conn)
        → k.state ≡ connected
        → m.fixed_header.qos_level ≡ 0
        → m.fixed_header.type ≡ PType.publish
        → (if is_open k.state
              then (numbered_in k.session (publish m) >>= λ m'.
                  written_bytes d (write_message_to m' []))
              else keep_for k.session (publish m))
            behind
          ≡ written_bytes d (Stream.ok (write_packet (publish m) [])) behind
    write_at k s z t =
        ap
          (λ o.
            (if is_open o
                then (numbered_in k.session (publish m) >>= λ m'.
                    written_bytes d (write_message_to m' []))
                else keep_for k.session (publish m))
              behind)
          s
        ∙ ap (λ p. bind p (λ m'. written_bytes d (write_message_to m' [])))
            (numbered_in-plain k.session m behind z)
        ∙ ap (λ r. written_bytes d r behind) (write_message_to-kind (publish m) [] t)

    -- A turn of the goroutine that writes, at such a publication in front of the queue.
    pub write-publish :
        (rt : Runtime)
        → (w.conns d).queue ≡ publish m ∷ ms
        → (w.conns d).state ≡ connected
        → m.fixed_header.qos_level ≡ 0
        → m.fixed_header.type ≡ PType.publish
        → step rt (write d) w ≡ (done tt, flushed)
    unfolding step write_turn take_out behind flushed
    write-publish rt q s z t =
        ap (λ qs. settle_turn (stop_writer d) (take_next d (w.conns d) qs w)) q
        ∙ ap (settle_turn (stop_writer d))
            (write_at (behind.conns d) (ap (λ k. k.state) behind_conn ∙ s) z t)
        ∙ ap
            (λ k. (
              done tt,
              set_conn d (record k { outgoing = k.outgoing ++ (write_packet (publish m) []).1 })
                  behind,
            ))
            behind_conn

    pub flushed_conn : flushed.conns d ≡ record (w.conns d) {
      queue = ms;
      outgoing = (w.conns d).outgoing ++ (write_packet (publish m) []).1;
    }
    unfolding flushed
    flushed_conn = rw (==_refl d)

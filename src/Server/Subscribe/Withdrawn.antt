-- ===== src/Server/Subscribe/Withdrawn.antt =====
-- An UNSUBSCRIBE of a client for a topic that it has subscribed, in server/conBroker.go.
use magic_mqtt.Prelude.{
  ℕ, Bool, false, ◌==◌, ◌≡◌, refl, ap, ◌∙◌, true, false, none, some, List, [], ◌∷◌, ◌++◌, length,
  ◌<◌, ==_refl,
}
use magic_mqtt.Packet.Suback
use magic_mqtt.Packet.Subscribe.{SubscribePayload}
use magic_mqtt.Packet.Unsubscribe.{Unsubscribe}
use magic_mqtt.Message.{Message, suback}
use magic_mqtt.Topics.Level.{Level, ok, same_refl}
use magic_mqtt.Topics.Levels.{topic_levels, same_path, same_path_iff}
use magic_mqtt.Topics.Value.{Value, nothing, pointer, func, string, number, equal}
use magic_mqtt.Topics.Subscription.{Subs}
use magic_mqtt.Topics.Memory.{unsubscribe}
use magic_mqtt.Topics.Subscription.Table.{subs_at}
use magic_mqtt.Topics.Subscription.Remove.{removed, drop_first, subs_at-sremove}
use magic_mqtt.Sessions.StringMap.{lookup, delete, lookup-delete}
use magic_mqtt.Sessions.Session.{remove_topics}
use magic_mqtt.Server.State.{Board, Conn}
use magic_mqtt.Server.Action.{done, for_each, send, set_conn, set_session}
use magic_mqtt.Server.Close.{unsubscribe_one}
use magic_mqtt.Server.Subscribe.{unsubscribe_found, unsubscribe_topic, on_unsubscribe}
use magic_mqtt.Server.Subscribe.Queued.{send-Queued}

abbrev ack_of : ℕ → Message
ack_of id = suback (record Suback.spawn { packet_identifier = id })

module _ {A : Type 0} (c a s : ℕ) (p : SubscribePayload) (w : Board A) where
  -- The state without the subscription.
  abbrev without : Board A
  without =
      let k = w.conns c in
      let w1 : Board A = record w {
        topics = (unsubscribe w.topics (w.subs s).topic (pointer s)).1;
      } in
      let w2 : Board A = set_session a (remove_topics p.topic_path (w.sessions.heap a)) w1 in
      set_conn c (record k { subscription = delete k.subscription p.topic_path }) w2

  unsubscribe_topic-without :
      (w.conns c).session ≡ some a
      → w.locked a ≡ false
      → lookup (w.conns c).subscription p.topic_path ≡ some s
      → unsubscribe_topic c p w ≡ (done tt, without)
  unfolding unsubscribe_topic unsubscribe_one
  unsubscribe_topic-without n free old =
      ap (λ o. unsubscribe_found c p.topic_path (w.conns c).session o w) old
      ∙ ap (λ o. unsubscribe_found c p.topic_path o (some s) w) n
      ∙ rw free refl

  on_unsubscribe-without :
      (msg : Unsubscribe)
      → msg.payload ≡ p ∷ []
      → unsubscribe_topic c p w ≡ (done tt, without)
      → on_unsubscribe c msg w ≡ send c (ack_of msg.packet_identifier) without
  unfolding on_unsubscribe for_each
  on_unsubscribe-without msg one e = rw (one, e) refl

-- Whether a subscriber is the subscription at an address.
abbrev pub is_subscription : ℕ → Value → Bool
is_subscription s (pointer p) = p == s
is_subscription s _ = false

equal-is_subscription : (s : ℕ) (v : Value) → equal v (pointer s) ≡ is_subscription s v
unfolding equal
equal-is_subscription s (pointer p) = refl
equal-is_subscription s nothing = refl
equal-is_subscription s (func f) = refl
equal-is_subscription s (string x) = refl
equal-is_subscription s (number k n) = refl

removed-drop_first :
    (s : ℕ) (es : Subs) → removed (pointer s) es ≡ drop_first (is_subscription s) es
unfolding removed
removed-drop_first s es = ap (λ f. drop_first f es) (λ i v. equal-is_subscription s v i)

-- What an UNSUBSCRIBE with one topic leaves: the SUBACK without codes in the queue, and the
-- subscription neither with the connection nor under its filter in the tree.
pub record IsWithdrawn {A : Type 0} (c s : ℕ) (id : ℕ) (p : SubscribePayload) (f : List Level)
    (w v : Board A) : Type 0 where
  pub queued :
      (v.conns c).queue
      ≡ (w.conns c).queue ++ suback (record Suback.spawn { packet_identifier = id }) ∷ []
  pub forgotten : lookup (v.conns c).subscription p.topic_path ≡ none
  pub left : subs_at v.topics.sroot f ≡ drop_first (is_subscription s) (subs_at w.topics.sroot f)

-- `onUnSubscribe` on a connection with a session, whose lock is free, with an open queue that has
-- room for a message, for an UNSUBSCRIBE with one topic that the connection has subscribed, of which the filter splits into
-- levels, returns: the client gets a SUBACK, not an UNSUBACK; the connection has forgotten the
-- subscription, and its first entry is taken out of the subscribers of its filter.
pub on_unsubscribe-IsWithdrawn :
    {A : Type 0} (c a s : ℕ) (msg : Unsubscribe) (p : SubscribePayload) (f : List Level)
    (w : Board A)
    → (w.conns c).session ≡ some a
    → w.locked a ≡ false
    → (w.conns c).queue_closed ≡ false
    → length (w.conns c).queue < (w.conns c).capacity
    → lookup (w.conns c).subscription p.topic_path ≡ some s
    → msg.payload ≡ p ∷ []
    → topic_levels (w.subs s).topic ≡ ok f
    → ((on_unsubscribe c msg w).0 ≡ done tt)
      × IsWithdrawn c s msg.packet_identifier p f w (on_unsubscribe c msg w).1
unfolding unsubscribe topic_levels
on_unsubscribe-IsWithdrawn c a s msg p f w n free open_queue room old one e =
    let v = without c a s p w in
    let conn : v.conns c
        ≡ record (w.conns c) { subscription = delete (w.conns c).subscription p.topic_path } =
      rw (==_refl c) refl in
    let sent =
      send-Queued c (ack_of msg.packet_identifier) v
        (ap (λ (k : Conn). k.queue_closed) conn ∙ open_queue) (rw conn room) in
    let result =
      on_unsubscribe-without c a s p w msg one (unsubscribe_topic-without c a s p w n free old) in
    let self : same_path f f ≡ true = (same_path_iff f f).1 refl in
    (
      ap (λ x. x.0) result ∙ sent.fine,
      record {
        queued =
            ap (λ x. (x.1.conns c).queue) result
            ∙ ap (λ (k : Conn). k.queue) sent.conn
            ∙ ap (λ (k : Conn). k.queue ++ ack_of msg.packet_identifier ∷ []) conn;
        forgotten =
            ap (λ x. lookup (x.1.conns c).subscription p.topic_path) result
            ∙ ap (λ (k : Conn). lookup k.subscription p.topic_path)
                (sent.conn
                  ∙ ap
                      (λ (k : Conn). record k {
                        queue = (v.conns c).queue ++ ack_of msg.packet_identifier ∷ [];
                      })
                      conn)
            ∙ lookup-delete (w.conns c).subscription p.topic_path p.topic_path
            ∙ rw (same_refl p.topic_path) refl;
        left =
            ap (λ x. subs_at x.1.topics.sroot f) result
            ∙ ap (λ m. subs_at m.sroot f) sent.topics
            ∙ subs_at-sremove (length (w.subs s).topic) w.topics.sroot (w.subs s).topic (pointer s)
                f f e
            ∙ rw self (removed-drop_first s (subs_at w.topics.sroot f));
      },
    )

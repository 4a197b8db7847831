-- ===== src/Server/Publish/Receivers.antt =====
-- Which connections a publication reaches, for `SendPublishMessage` of server/conBroker.go.
use magic_mqtt.Prelude.{
  ℕ, zero, suc, ◌<◌, ◌+◌, subst, ◌≡◌, ◌↔◌, refl, ap, ◌∙◌, Bool, true, Bool-cases, inl, inr, Option,
  none, some, List, [], ◌∷◌, length, length-append, replicate, ==_refl, ==_iff, ◌%◌, arith,
}
use magic_mqtt.Message.{Message, publish}
use magic_mqtt.Packet.Publish.{Publish}
use magic_mqtt.Topics.Level.{Level, ok}
use magic_mqtt.Topics.Levels.{topic_levels}
use magic_mqtt.Topics.Value.{Value, nothing, pointer, func, string, number}
use magic_mqtt.Topics.Subscription.{Subs}
use magic_mqtt.Topics.Trie.Distinct.{IsDistinct}
use magic_mqtt.Topics.Subscription.Match.Delivery.{Has, Subscribed}
use magic_mqtt.Topics.Memory.{subscribers, valid_qos}
use magic_mqtt.Topics.Memory.Delivery.{subscribers_iff}
use magic_mqtt.Sessions.Group.{group_get}
use magic_mqtt.Server.State.{Board, Conn}
use magic_mqtt.Server.Publish.{send_publish_message}
use magic_mqtt.Server.Publish.Delivery.{count, names, conn_of, writer_of, sent_to, IsLive}
use magic_mqtt.Server.Publish.Handed.{count-true, count-false}
use magic_mqtt.Server.Publish.Exact.{send_publish_message-HandedOut}

count_of : (f : Value → Bool) (v : Value) (es : Subs) → Has v es → f v ≡ true → 0 < count f es
count_of f v [] h e = absurd h
count_of f v ((s, q) ∷ es) (inl r) e = rw (count-true f s q es (ap f r ∙ e)) (omega arith)
count_of f v ((s, q) ∷ es) (inr h) e = elim (Bool-cases (f s)) [
  | inl t ↦ rw (count-true f s q es t) (omega arith)
  | inr t ↦ rw (count-false f s q es t) (count_of f v es h e)
]

counted : (f : Value → Bool) (es : Subs) → 0 < count f es → (v : Value) × (Has v es × (f v ≡ true))
unfolding count
counted f [] l = absurd (omega arith)
counted f ((s, q) ∷ es) l = elim (Bool-cases (f s)) [
  | inl t ↦ (s, (inl refl, t))
  | inr t ↦ let (v, (h, e)) = counted f es (rw (count-false f s q es t) at l) in (v, (inr h, e))
]

length-replicate : (n : ℕ) (m : Message) → length (replicate n m) ≡ n
length-replicate zero m = refl
length-replicate (suc n) m = ap suc (length-replicate n m)

names-true : (o : Option ℕ) (c : ℕ) → names o c ≡ true → o ≡ some c
names-true none c e = cc
names-true (some x) c e = ap some ((==_iff x c).0 e)

conn_of-some :
    (writer : ℕ → Option ℕ) (o : Option ℕ) (c : ℕ)
    → conn_of writer o ≡ some c
    → (a : ℕ) × ((o ≡ some a) × (writer a ≡ some c))
conn_of-some writer none c e = cc
conn_of-some writer (some a) c e = (a, (refl, e))

module _ {A : Type 0} where
  -- A subscription under a filter that matches, of a client whose session writes to the connection.
  pub record Receives (w : Board A) (ls : List Level) (c : ℕ) : Type 0 where
    pub sub : ℕ
    pub session : ℕ
    pub matching : Subscribed (pointer sub) w.topics.sroot ls
    pub of_client : group_get (w.subs sub).client w.sessions ≡ some session
    pub writes : (w.sessions.heap session).on_write ≡ some c

  sent_to-pointer :
      (w : Board A) (c : ℕ) (v : Value)
      → sent_to w c v ≡ true
      → (p : ℕ) × ((a : ℕ) × ((v ≡ pointer p)
            × (group_get (w.subs p).client w.sessions ≡ some a)
            × ((w.sessions.heap a).on_write ≡ some c)))
  sent_to-pointer w c (pointer p) e =
      let (a, (f, g)) =
        conn_of-some (writer_of w) (group_get (w.subs p).client w.sessions) c
          (names-true (conn_of (writer_of w) (group_get (w.subs p).client w.sessions)) c e) in
      (p, (a, (refl, f, g)))
  sent_to-pointer w c nothing e = cc
  sent_to-pointer w c (func f) e = cc
  sent_to-pointer w c (string s) e = cc
  sent_to-pointer w c (number k n) e = cc

  received :
      (w : Board A) (c : ℕ) (v : Value) (ls : List Level)
      → Subscribed v w.topics.sroot ls
      → sent_to w c v ≡ true
      → Receives w ls c
  received w c v ls s e =
      let (p, (a, (same, f, g))) = sent_to-pointer w c v e in
      record {
        sub = p;
        session = a;
        matching = subst (λ v. Subscribed v w.topics.sroot ls) same s;
        of_client = f;
        writes = g;
      }

  -- In a state where no lock is taken and the queues that sessions write to are open, each with room
  -- for as many messages as `Subscribers` finds entries, for a publication with a valid QoS and a topic that splits into levels, and a subscription tree whose
  -- maps hold no level twice: `SendPublishMessage` makes the queue of a connection longer exactly
  -- where a subscription that the provider holds under a matching filter, granted whatever QoS, is of
  -- a client whose session writes to that connection.
  pub send_publish_message_iff :
      (msg : Publish) (ls : List Level) (c : ℕ) (w : Board A)
      → IsLive (length (subscribers w.topics msg.topic_name (msg.fixed_header.qos_level % 256)).1) w
      → IsDistinct w.topics.sroot
      → valid_qos (msg.fixed_header.qos_level % 256) ≡ true
      → topic_levels msg.topic_name ≡ ok ls
      → (length (w.conns c).queue < length ((send_publish_message msg w).1.conns c).queue)
        ↔ Receives w ls c
  send_publish_message_iff msg ls c w live d q e = (
    λ l.
        let (v, (h, t)) = counted (sent_to w c) es (omega (arith, longer)) in
        received w c v ls ((each v).0 h) t,
    λ r.
        let n =
          count_of (sent_to w c) (pointer r.sub) es ((each (pointer r.sub)).1 r.matching)
            (rw (r.of_client, r.writes) (==_refl c)) in
        omega (arith, longer),
  )
    where
      es : Subs
      es = (subscribers w.topics msg.topic_name (msg.fixed_header.qos_level % 256)).1

      iff :
          (v : Value)
          → ((subscribers w.topics msg.topic_name (msg.fixed_header.qos_level % 256)).0 ≡ ok tt)
            × (Has v es ↔ Subscribed v w.topics.sroot ls)
      iff v = subscribers_iff w.topics msg.topic_name (msg.fixed_header.qos_level % 256) ls v d q e

      each : (v : Value) → Has v es ↔ Subscribed v w.topics.sroot ls
      each v = (iff v).1

      longer :
          length ((send_publish_message msg w).1.conns c).queue
          ≡ length (w.conns c).queue + count (sent_to w c) es
      longer =
          ap (λ (k : Conn). length k.queue)
            ((send_publish_message-HandedOut msg es w live (λ i. ((iff nothing).0 i, es))).1 c)
          ∙ length-append (w.conns c).queue (replicate (count (sent_to w c) es) (publish msg))
          ∙ ap (λ n. length (w.conns c).queue + n)
              (length-replicate (count (sent_to w c) es) (publish msg))

-- ===== src/Server/Subscribe/Queued.antt =====
-- Messages that a handler of server/conBroker.go puts into the queue of its connection.
use magic_mqtt.Prelude.{
  ℕ, ◌≡◌, refl, ap, sym, ◌∙◌, false, suc, ◌<◌, ◌≤◌, ◌+◌, length, length-append, arith, List, [],
  ◌∷◌, ◌++◌, map, ==_refl, append_assoc, append-nil,
}
use magic_mqtt.Packet.Publish.{Publish}
use magic_mqtt.Message.{Message, publish}
use magic_mqtt.Server.State.{Board, Conn}
use magic_mqtt.Server.Action.{Action, Result, done, panic, blocked, bind, for_each, send}
use magic_mqtt.Server.Action.States.{send_open}

module _ {A : Type 0} (c : ℕ) where
  -- Messages at the end of the queue of a connection, and nothing else.
  pub record Queued (ms : List Message) (w : Board A) (r : Result (Unit {0}) × Board A)
      : Type 0 where
    pub fine : r.0 ≡ done tt
    pub conn : r.1.conns c ≡ record (w.conns c) { queue = (w.conns c).queue ++ ms }
    pub topics : r.1.topics ≡ w.topics
    pub subs : r.1.subs ≡ w.subs

  pub send-Queued :
      (m : Message) (w : Board A)
      → (w.conns c).queue_closed ≡ false
      → length (w.conns c).queue < (w.conns c).capacity
      → Queued (m ∷ []) w (send c m w)
  send-Queued m w e r =
      let q = send_open c m w e r in
      record {
        fine = ap (λ r. r.0) q;
        conn = ap (λ r. r.1.conns c) q ∙ rw (==_refl c) refl;
        topics = ap (λ r. r.1.topics) q;
        subs = ap (λ r. r.1.subs) q;
      }

  pub then-Queued :
      (ms ns : List Message) (w : Board A) (p : Result (Unit {0}) × Board A)
      (next : Action A (Unit {0}))
      → Queued ms w p
      → Queued ns p.1 (next p.1)
      → Queued (ms ++ ns) w (bind p (λ _. next))
  then-Queued ms ns w (done u, v) next s k = record {
    fine = k.fine;
    conn =
        k.conn
        ∙ ap (λ (k : Conn). record k { queue = k.queue ++ ns }) s.conn
        ∙ ap (λ q. record (w.conns c) { queue = q }) (append_assoc (w.conns c).queue ms ns);
    topics = k.topics ∙ s.topics;
    subs = k.subs ∙ s.subs;
  }
  then-Queued ms ns w (panic, v) next s k = let e = s.fine in cc
  then-Queued ms ns w (blocked, v) next s k = let e = s.fine in cc

  pub for_each-Queued :
      (ms : List Publish) (w : Board A)
      → (w.conns c).queue_closed ≡ false
      → length (w.conns c).queue + length ms ≤ (w.conns c).capacity
      → Queued (map publish ms) w (for_each (λ m. send c (publish m)) ms w)
  unfolding for_each
  for_each-Queued [] w e r = record {
    fine = refl;
    conn = ap (λ q. record (w.conns c) { queue = q }) (sym (append-nil (w.conns c).queue));
    topics = refl;
    subs = refl;
  }
  for_each-Queued (m ∷ ms) w e r =
      let s = send-Queued (publish m) w e (omega arith) in
      let len = length-append (w.conns c).queue (publish m ∷ []) in
      let room : length (w.conns c).queue + suc (length ms) ≤ (w.conns c).capacity = r in
      then-Queued (publish m ∷ []) (map publish ms) w (send c (publish m) w)
        (for_each (λ m. send c (publish m)) ms) s
        (for_each-Queued ms (send c (publish m) w).1 (ap (λ (k : Conn). k.queue_closed) s.conn ∙ e)
          (rw s.conn (omega arith)))

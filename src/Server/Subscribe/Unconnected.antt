-- ===== src/Server/Subscribe/Unconnected.antt =====
-- A SUBSCRIBE of a client that has not connected, in server/conBroker.go.
use magic_mqtt.Prelude.{ℕ, Bool, ◌≡◌, refl, none, Option-cases, inl, inr, List, [], ◌∷◌, ==_refl}
use magic_mqtt.Encoding.Stream
use magic_mqtt.Packet.Subscribe.{Subscribe, SubscribePayload}
use magic_mqtt.Message.{Runtime, subscribe, parse}
use magic_mqtt.Sessions.StringMap.{lookup}
use magic_mqtt.Server.State.{Board}
use magic_mqtt.Server.Action.{Action, Result, done, panic, blocked, bind, set_conn}
use magic_mqtt.Server.Subscribe.{Collected, subscribe_one, subscribe_loop, on_subscribe}
use magic_mqtt.Server.Close.{unsubscribe_one}
use magic_mqtt.Server.Dispatch.{handle, parse_message, read_turn}
use magic_mqtt.Server.Step.{settle, step, read}

module _ {A : Type 0} where
  bind-panic :
      {X Y : Type 0} (p : Result X × Board A) (f : X → Action A Y)
      → p.0 ≡ panic
      → (bind p f).0 ≡ panic
  bind-panic (done x, w) f e = cc
  bind-panic (panic, w) f e = refl
  bind-panic (blocked, w) f e = cc

  subscribe_one-panic :
      (c : ℕ) (p : SubscribePayload) (acc : Collected) (w : Board A)
      → (w.conns c).session ≡ none
      → (subscribe_one c p acc w).0 ≡ panic
  unfolding subscribe_one unsubscribe_one
  subscribe_one-panic c p acc w e =
      elim (Option-cases (lookup (w.conns c).subscription p.topic_path)) [
        | inl f ↦ rw (f, e) refl
        | inr (s, f) ↦ rw (f, e) refl
      ]

  on_subscribe-panic :
      (c : ℕ) (m : Subscribe) (p : SubscribePayload) (ps : List SubscribePayload) (w : Board A)
      → (w.conns c).session ≡ none
      → m.payload ≡ p ∷ ps
      → (on_subscribe c m w).0 ≡ panic
  unfolding on_subscribe subscribe_loop
  on_subscribe-panic c m p ps w e f = rw f (
      bind-panic (bind (subscribe_one c p ([], []) w) (subscribe_loop c ps)) _ (
        bind-panic (subscribe_one c p ([], []) w) (subscribe_loop c ps)
          (subscribe_one-panic c p ([], []) w e)))

  settle-panic : (c : ℕ) (p : Result Bool × Board A) → p.0 ≡ panic → (settle c p).0 ≡ panic
  settle-panic c (done x, w) e = cc
  settle-panic c (panic, w) e = refl
  settle-panic c (blocked, w) e = cc

  -- A turn of the goroutine that reads, at a SUBSCRIBE with a topic on a connection without a
  -- session, which has sent no CONNECT that was accepted, ends the process with a panic.
  pub step-subscribe :
      (rt : Runtime) (c : ℕ) (m : Subscribe) (p : SubscribePayload) (ps : List SubscribePayload)
      (rest : List ℕ) (w : Board A)
      → (w.conns c).session ≡ none
      → m.payload ≡ p ∷ ps
      → parse rt w.deploy.message_size (w.conns c).incoming ≡ (Stream.ok (subscribe m), rest)
      → (step rt (read c) w).0 ≡ panic
  unfolding step read_turn parse_message handle
  step-subscribe rt c m p ps rest w e f g = settle-panic c (read_turn rt c w) (
      bind-panic (parse_message rt c w) _ (
        rw g (
          bind-panic (on_subscribe c m w1) _
            (on_subscribe-panic c m p ps w1 (rw (==_refl c) e) f))))
    where
      w1 : Board A
      w1 = set_conn c (record (w.conns c) { incoming = rest }) w

-- ===== src/Server/Step.antt =====
-- The broker as a state machine: which of the goroutines of its connections takes a step.
pub mod Relay
pub mod Turns
pub mod Confirm
use magic_mqtt.Prelude.{ℕ, ◌≡◌, ◌≢◌, Bool, true, false, List}
use magic_mqtt.Message.{Runtime}
use magic_mqtt.Server.State.{Board}
use magic_mqtt.Server.Action.{Action, Result, done, panic, blocked, set_conn}
use magic_mqtt.Server.Close.{drain_turn}
use magic_mqtt.Server.Dispatch.{read_turn}
use magic_mqtt.Server.Writer.{write_turn, kick, serve_conn}

pub data Event : Type 0 where
  accepted : List ℕ → Event
  read write kicked drained : ℕ → Event

module _ {A : Type 0} where
  abbrev pub stop_reading : ℕ → Board A → Board A
  stop_reading c w = set_conn c (record (w.conns c) { reading = false }) w

  -- The goroutine that reads takes no further turn where the last one ended its loop or waits for
  -- ever.
  abbrev pub settle : ℕ → Result Bool × Board A → Result (Unit {0}) × Board A
  settle c (done true, w) = (done tt, w)
  settle c (done false, w) = (done tt, stop_reading c w)
  settle c (panic, w) = (panic, w)
  settle c (blocked, w) = (blocked, stop_reading c w)

  abbrev pub stop_writer : ℕ → Board A → Board A
  stop_writer c w = set_conn c (record (w.conns c) { writing = false }) w

  abbrev pub stop_draining : ℕ → Board A → Board A
  stop_draining c w = set_conn c (record (w.conns c) { draining = false }) w

  -- Nor does another that waits for ever.
  abbrev pub settle_turn :
      (Board A → Board A) → Result (Unit {0}) × Board A → Result (Unit {0}) × Board A
  settle_turn stop (done u, w) = (done tt, w)
  settle_turn stop (panic, w) = (panic, w)
  settle_turn stop (blocked, w) = (blocked, stop w)

  unfoldable pub step : Runtime → Event → Action A (Unit {0})
  step rt (accepted incoming) w = serve_conn incoming w
  step rt (read c) w = settle c (read_turn rt c w)
  step rt (write c) w = settle_turn (stop_writer c) (write_turn c w)
  step rt (kicked c) w = settle_turn (stop_writer c) (kick c w)
  step rt (drained c) w = settle_turn (stop_draining c) (drain_turn c w)

  -- Which events can happen.
  abbrev pub CanHappen : Event → Board A → Type 0
  CanHappen (accepted incoming) w = Unit {0}
  CanHappen (read c) w = (w.conns c).reading ≡ true
  CanHappen (write c) w = (w.conns c).writing ≡ true
  CanHappen (kicked c) w = (w.conns c).writing ≡ true
  CanHappen (drained c) w = (w.conns c).draining ≡ true

  -- The states that the broker gets to from `w`. A panic ends the process.
  pub data Reached (rt : Runtime) (w : Board A) : Board A → Type 0 where
    here : Reached rt w w
    next :
        {v : Board A}
        → Reached rt w v
        → (e : Event) → CanHappen e v
        → (step rt e v).0 ≢ panic
        → Reached rt w (step rt e v).1

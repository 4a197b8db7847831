-- ===== src/Core/Shutdown.antt =====
-- When `Shutdown` of core/engine.go returns.
use magic_mqtt.Prelude.{
  ◌≡◌, ◌↔◌, refl, ap, sym, subst, ◌∙◌, Bool, true, false, Bool-cases, Option, none, some, inl, inr,
}
use magic_mqtt.Server.Action.{Result, done, panic, blocked}
use magic_mqtt.Server.Serve.{Accepted}
use magic_mqtt.Server.Tcp.{
  Net, TcpBroker, looping, Running, loop_turn, wait_turn, tcp_shutdown, shutdown_returns,
}
use magic_mqtt.Server.Tcp.Counted.{AllClosed}
use magic_mqtt.Server.Tcp.Stop.{shutdown_returns_iff}
use magic_mqtt.Core.{World, set_board, stop_watch, waited, stop_broker, shutdown}

module _ {D K : Type 0} where
  -- A Shutdown that has run to its end.
  record IsStopped (v : World D K) : Type 0 where
    no_broker : v.engine.broker ≡ none
    no_watch : v.engine.signal_watch ≡ false
    no_auth : v.board.auth ≡ none
    no_logging : v.board.log ≡ false

  stop_watch-IsStopped :
      (signalled b : Bool) (w : World D K)
      → w.engine.broker ≡ none
      → w.engine.signal_watch ≡ b
      → (stop_watch signalled b w).0 ≡ done tt
      → IsStopped (stop_watch signalled b w).1
  stop_watch-IsStopped signalled false w e q h = record {
    no_broker = e;
    no_watch = q;
    no_auth = refl;
    no_logging = refl;
  }
  stop_watch-IsStopped true true w e q h = record {
    no_broker = e;
    no_watch = refl;
    no_auth = refl;
    no_logging = refl;
  }
  stop_watch-IsStopped false true w e q h = cc

  shutdown-IsStopped :
      (signalled : Bool) (run : TcpBroker → TcpBroker) (w : World D K)
      → (shutdown signalled run w).0 ≡ done tt
      → IsStopped (shutdown signalled run w).1
  unfolding shutdown
  shutdown-IsStopped signalled run w h = by_broker w.engine.broker refl h
    where
      by_wait :
          (b : TcpBroker) (r : Result (Unit {0}))
          → (waited signalled run (r, b) w).0 ≡ done tt
          → IsStopped (waited signalled run (r, b) w).1
      by_wait b (done u) h = elim (Bool-cases (shutdown_returns (run b))) [
        | inl t ↦
            rw t (stop_watch-IsStopped signalled w.engine.signal_watch _ refl refl (rw t at h))
        | inr t ↦ cc (rw t at h)
      ]
      by_wait b panic h = cc
      by_wait b blocked h = cc

      by_broker :
          (o : Option TcpBroker)
          → w.engine.broker ≡ o
          → (stop_broker signalled run o w).0 ≡ done tt
          → IsStopped (stop_broker signalled run o w).1
      by_broker none e h = stop_watch-IsStopped signalled w.engine.signal_watch w e refl h
      by_broker (some b) e h = by_wait (tcp_shutdown b).1 (tcp_shutdown b).0 h

  again :
      (signalled : Bool) (run : TcpBroker → TcpBroker) (v : World D K)
      → IsStopped v
      → shutdown signalled run v ≡ (done tt, v)
  unfolding shutdown
  again signalled run v s =
      ap (λ o. stop_broker signalled run o v) s.no_broker
      ∙ ap (λ b. stop_watch signalled b v) s.no_watch
      ∙ ap (λ a. (done tt, set_board (λ u. record u { auth = a; log = false }) v)) (sym s.no_auth)
      ∙ ap (λ g. (done tt, set_board (λ u. record u { log = g }) v)) (sym s.no_logging)

  -- Where `Shutdown` returns, the engine has no broker and no signal watch and the board neither an
  -- `Auth` nor a log; to call it again changes nothing and returns at once.
  pub shutdown-shutdown :
      (signalled again_signalled : Bool) (run run' : TcpBroker → TcpBroker) (w : World D K)
      → (shutdown signalled run w).0 ≡ done tt
      → shutdown again_signalled run' (shutdown signalled run w).1
        ≡ (done tt, (shutdown signalled run w).1)
  shutdown-shutdown signalled again_signalled run run' w h =
      again again_signalled run' (shutdown signalled run w).1 (shutdown-IsStopped signalled run w h)

  stop_watch_signalled : (t : Bool) (w : World D K) → (stop_watch true t w).0 ≡ done tt
  stop_watch_signalled true w = refl
  stop_watch_signalled false w = refl

  waited_iff :
      (run : TcpBroker → TcpBroker) (w : World D K) (p : Result (Unit {0}) × TcpBroker)
      → p.0 ≡ done tt
      → ((waited true run p w).0 ≡ done tt) ↔ (shutdown_returns (run p.1) ≡ true)
  waited_iff run w (done u, b) e = elim (Bool-cases (shutdown_returns (run b))) [
    | inl t ↦ rw t (λ h. refl, λ h. stop_watch_signalled w.engine.signal_watch _)
    | inr t ↦ rw t (λ h. cc, λ h. cc)
  ]
  waited_iff run w (panic, b) e = cc
  waited_iff run w (blocked, b) e = cc

  -- While the broker of the engine runs, its loop goes on and it has not been shut down, and a signal
  -- has come: `Shutdown`, during whose wait the loop takes its next turn and ends, returns exactly if
  -- every connection that the listener accepted has been closed.
  pub shutdown_iff :
      (net : Net) (b : TcpBroker) (x : Accepted) (w : World D K)
      → w.engine.broker ≡ some b
      → Running net b
      → b.serving ≡ looping
      → b.shutdown ≡ some false
      → ((shutdown true (λ c. wait_turn (loop_turn x c)) w).0 ≡ done tt) ↔ AllClosed b
  unfolding shutdown
  shutdown_iff net b x w e r l c =
      let run : TcpBroker → TcpBroker = λ c. wait_turn (loop_turn x c) in
      let (shut, all) = shutdown_returns_iff net b x r l c in
      let wait = waited_iff run w (tcp_shutdown b) shut in
      subst (λ o. ((stop_broker true run o w).0 ≡ done tt) ↔ AllClosed b) (sym e)
        (λ h. all.0 (wait.0 h), λ h. wait.1 (all.1 h))

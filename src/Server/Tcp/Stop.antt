-- ===== src/Server/Tcp/Stop.antt =====
-- When `Shutdown` of server/tcpBroker.go returns.
use magic_mqtt.Prelude.{
  ◌-◌, ◌≡◌, ◌≢◌, ◌↔◌, refl, ap, sym, subst, ◌∙◌, true, false, Bool-cases, inl, inr, some, ◌==◌,
  ==_iff, arith,
}
use magic_mqtt.Server.Action.{done}
use magic_mqtt.Server.Listener.{MListener}
use magic_mqtt.Server.Serve.{Accepted}
use magic_mqtt.Server.Tcp.{
  Net, Serving, unstarted, looping, waiting, returned, TcpBroker, close_channel, close_listener,
  may_return, loop_turn, wait_turn, tcp_shutdown, shutdown_returns, Running,
}
use magic_mqtt.Server.Tcp.Counted.{Running-IsRunning, AllClosed, closed_listener_of, count}

-- At any time while the broker runs, the wait of `Shutdown` would return exactly where the goroutine
-- of `Serve` has returned and every connection that the listener accepted is closed.
pub shutdown_returns-AllClosed :
    (net : Net) (b : TcpBroker)
    → Running net b
    → (shutdown_returns b ≡ true) ↔ ((b.serving ≡ returned) × AllClosed b)
unfolding shutdown_returns
shutdown_returns-AllClosed net b r =
    let s = Running-IsRunning net b r in
    let from_zero = at_zero b.serving s.counted s.started in
    (
      λ h. (from_zero h, (closed_listener_of b s).0 (s.at_end (from_zero h))),
      λ q. (==_iff b.wg 0).1 (s.counted ∙ ap count q.0),
    )
  where
    at_zero : (v : Serving) → b.wg ≡ count v → v ≢ unstarted → (b.wg == 0) ≡ true → v ≡ returned
    at_zero unstarted q n h = absurd (n refl)
    at_zero looping q n h = absurd (ground (arith, q, h))
    at_zero waiting q n h = absurd (ground (arith, q, h))
    at_zero returned q n h = refl

shut_down : TcpBroker → TcpBroker
shut_down b = record b { shutdown = some true; lst_open = false }

tcp_shutdown-shut_down :
    (b : TcpBroker) (l : MListener)
    → b.shutdown ≡ some false
    → b.lst ≡ some l
    → tcp_shutdown b ≡ (done tt, shut_down b)
unfolding tcp_shutdown shut_down
tcp_shutdown-shut_down b l c e =
    ap (λ o. close_channel o b) c ∙ ap (λ o. close_listener o (record b { shutdown = some true })) e

last_turns :
    (b : TcpBroker) (x : Accepted)
    → b.wg ≡ 1
    → (shutdown_returns (wait_turn (loop_turn x (shut_down b))) ≡ true) ↔ (may_return b.lst ≡ true)
unfolding shutdown_returns wait_turn loop_turn shut_down
last_turns b x e = elim (Bool-cases (may_return b.lst)) [
  | inl t ↦ rw t (λ h. refl, λ h. (==_iff (b.wg - 1) 0).1 (ap (λ n. n - 1) e))
  | inr t ↦ rw t (λ h. absurd (ground (arith, e, h)), λ h. cc)
]

-- While the loop of `Serve` goes on and `Shutdown` has not been called: it closes the channel and the
-- listener, the next turn of the loop is the last, whatever `Accept` gives, and then `Shutdown`
-- returns exactly if every connection that the listener accepted has been closed.
pub shutdown_returns_iff :
    (net : Net) (b : TcpBroker) (x : Accepted)
    → Running net b
    → b.serving ≡ looping
    → b.shutdown ≡ some false
    → ((tcp_shutdown b).0 ≡ done tt)
      × ((shutdown_returns (wait_turn (loop_turn x (tcp_shutdown b).1)) ≡ true) ↔ AllClosed b)
shutdown_returns_iff net b x r e c =
    let s = Running-IsRunning net b r in
    let down = tcp_shutdown-shut_down b s.listener c s.is_there in
    let last = last_turns b x (s.counted ∙ ap count e) in
    let wait = ap may_return s.is_there in
    let all = closed_listener_of b s in
    (
      ap (λ p. p.0) down,
      subst (λ p. (shutdown_returns (wait_turn (loop_turn x p.1)) ≡ true) ↔ AllClosed b) (sym down)
          (λ h. all.0 (sym wait ∙ last.0 h), λ h. last.1 (wait ∙ all.1 h)),
    )

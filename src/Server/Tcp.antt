-- ===== src/Server/Tcp.antt =====
-- `TCPBroker` of server/tcpBroker.go: `ListenAndServe`, `Shutdown` and the goroutine of `Serve`
-- between them, with the listener of network/listener.go. What the loop does with a connection is
-- in Server.Serve.
--
-- The package net is a parameter: `resolve` is ResolveTCPAddr, `none` for a nil address beside an
-- error, and `listen` says whether ListenTCP gives a listener.
pub mod Stop
pub mod Counted
use magic_mqtt.Prelude.{
  ℕ, ◌+◌, ◌-◌, ◌≡◌, Bool, true, false, Option, none, some, List, ◌==◌, if◌then◌else◌, map,
}
use magic_mqtt.Server.Action.{Result, done, panic}
use magic_mqtt.Server.Listener.{MListener, new_listener, accept_conn, close_conn, wait_returns}
use magic_mqtt.Server.Serve.{Accepted, connection, temporary, closed_listener, failed, next_delay}

pub record Net : Type 1 where
  pub Addr : Type 0
  pub resolve : List ℕ → Option Addr
  pub listen : Option Addr → Bool

-- Where the goroutine of `Serve` is.
pub data Serving : Type 0 where
  unstarted looping waiting returned : Serving

-- `shutdown` is nil, or the channel, and whether it is closed; `sn` has the numbers that the
-- generator of identifiers was made with; `delay` is `tmpDelay`.
pub record TcpBroker : Type 0 where
  pub shutdown : Option Bool
  pub lst : Option MListener
  pub lst_open : Bool
  pub wg : ℕ
  pub sn : Option (ℕ × ℕ)
  pub serving : Serving
  pub delay : ℕ

-- `&TCPBroker{}`
abbrev pub new_tcp : TcpBroker
new_tcp = record {
  shutdown = none;
  lst = none;
  lst_open = false;
  wg = 0;
  sn = none;
  serving = unstarted;
  delay = 0;
}

-- `ListenAndServe`, and whether it answers nil. The error of ResolveTCPAddr is overwritten.
unfoldable pub listen_and_serve : Net → ℕ → ℕ → List ℕ → TcpBroker → Bool × TcpBroker
listen_and_serve net work_group work address b =
    if net.listen (net.resolve address)
    then (
      true,
      record b {
        sn = some (work_group, work);
        shutdown = some false;
        lst = some new_listener;
        lst_open = true;
        wg = b.wg + 1;
        serving = looping;
        delay = 1;
      },
    )
    else (false, b)

abbrev pub is_shut : Option Bool → Bool
is_shut none = false
is_shut (some closed) = closed

abbrev pub on_listener : (MListener → MListener) → Option MListener → Option MListener
on_listener f none = none
on_listener f (some l) = some (f l)

-- The default case of the loop, by what `Accept` gives.
abbrev pub accept_turn : Accepted → TcpBroker → TcpBroker
accept_turn (connection bytes) b = record b { lst = on_listener accept_conn b.lst; delay = 1 }
accept_turn temporary b = record b { delay = next_delay b.delay }
accept_turn closed_listener b = b
accept_turn failed b = record b { serving = waiting }

-- A turn of the loop of `Serve`.
unfoldable pub loop_turn : Accepted → TcpBroker → TcpBroker
loop_turn x b = if is_shut b.shutdown then record b { serving = waiting } else accept_turn x b

abbrev pub may_return : Option MListener → Bool
may_return none = false
may_return (some l) = wait_returns l

-- Behind the loop: `Wait` of the listener, and the deferred `Done`.
unfoldable pub wait_turn : TcpBroker → TcpBroker
wait_turn b = if may_return b.lst then record b { serving = returned; wg = b.wg - 1 } else b

-- A `Close` of a connection.
unfoldable pub close_on : ℕ → TcpBroker → TcpBroker
close_on i b = record b { lst = on_listener (close_conn i) b.lst }

abbrev pub close_listener : Option MListener → TcpBroker → Result (Unit {0}) × TcpBroker
close_listener none b = (panic, b)
close_listener (some l) b = (done tt, record b { lst_open = false })

abbrev pub close_channel : Option Bool → TcpBroker → Result (Unit {0}) × TcpBroker
close_channel none b = (panic, b)
close_channel (some true) b = (panic, b)
close_channel (some false) b = close_listener b.lst (record b { shutdown = some true })

-- `Shutdown` up to its wait: to close a channel that is nil or closed panics.
unfoldable pub tcp_shutdown : TcpBroker → Result (Unit {0}) × TcpBroker
tcp_shutdown b = close_channel b.shutdown b

-- Whether the wait at the end of `Shutdown` returns.
unfoldable pub shutdown_returns : TcpBroker → Bool
shutdown_returns b = b.wg == 0

-- What `Accept` can give: a connection only while the listener is open.
abbrev pub CanAccept : Accepted → TcpBroker → Type 0
CanAccept (connection bytes) b = b.lst_open ≡ true
CanAccept temporary b = Unit {0}
CanAccept closed_listener b = b.lst_open ≡ false
CanAccept failed b = Unit {0}

-- The states of a broker that listens, under any interleaving.
pub data Running (net : Net) : TcpBroker → Type 0 where
  listening :
      (work_group work : ℕ) (address : List ℕ)
      → (listen_and_serve net work_group work address new_tcp).0 ≡ true
      → Running net (listen_and_serve net work_group work address new_tcp).1
  looped :
      {b : TcpBroker}
      → Running net b
      → (x : Accepted) → CanAccept x b
      → b.serving ≡ looping
      → Running net (loop_turn x b)
  waited : {b : TcpBroker} → Running net b → b.serving ≡ waiting → Running net (wait_turn b)
  closed : {b : TcpBroker} → Running net b → (i : ℕ) → Running net (close_on i b)
  shut : {b : TcpBroker} → Running net b → Running net (tcp_shutdown b).1

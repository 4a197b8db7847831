-- ===== src/Server/Tcp/Counted.antt =====
-- The wait groups of `TCPBroker` and of its listener, in server/tcpBroker.go and network/listener.go,
-- while the broker runs.
use magic_mqtt.Prelude.{
  ℕ, ◌-◌, ◌≡◌, ◌≢◌, ◌↔◌, refl, ap, sym, subst, ◌∙◌, Bool, true, false, Bool-cases, inl, inr, Option,
  none, some, List, if◌then◌else◌,
}
use magic_mqtt.Server.Listener
use magic_mqtt.Server.Listener.{
  MListener, new_listener, accept_conn, close_conn, wait_returns, is_counted, wait_returns_iff,
}
use magic_mqtt.Server.Serve.{Accepted, connection, temporary, closed_listener, failed, next_delay}
use magic_mqtt.Server.Tcp.{
  Net, Serving, unstarted, looping, waiting, returned, TcpBroker, new_tcp, listen_and_serve,
  is_shut, accept_turn, close_channel, close_listener, may_return, loop_turn, wait_turn, close_on,
  tcp_shutdown, Running, listening, looped, waited, closed, shut,
}

-- How often `Serve` is counted.
abbrev pub count : Serving → ℕ
count unstarted = 0
count looping = 1
count waiting = 1
count returned = 0

-- Every connection that the listener accepted is closed.
abbrev pub AllClosed : TcpBroker → Type 0
AllClosed b = (l : MListener) → b.lst ≡ some l → (i : ℕ) → is_counted l.counted i ≡ false

pub record IsRunning (b : TcpBroker) : Type 0 where
  pub listener : MListener
  pub is_there : b.lst ≡ some listener
  pub listener_reached : Listener.Reached listener
  pub counted : b.wg ≡ count b.serving
  pub at_end : b.serving ≡ returned → wait_returns listener ≡ true
  pub started : b.serving ≢ unstarted

new_tcp-IsRunning :
    (net : Net) (g w : ℕ) (address : List ℕ)
    → (listen_and_serve net g w address new_tcp).0 ≡ true
    → IsRunning (listen_and_serve net g w address new_tcp).1
unfolding listen_and_serve
new_tcp-IsRunning net g w address e = elim (Bool-cases (net.listen (net.resolve address))) [
  | inl t ↦ rw t (record {
    listener = new_listener;
    is_there = refl;
    listener_reached = Listener.start;
    counted = refl;
    at_end = λ q. cc;
    started = λ q. cc;
  })
  | inr t ↦ cc (rw t at e)
]

listener_of : {b : TcpBroker} (s : IsRunning b) (l : MListener) → b.lst ≡ some l → s.listener ≡ l
listener_of s l e = let q = sym s.is_there ∙ e in cc q

-- What is not the listener, the count and the place of the goroutine does not matter.
module _ {b : TcpBroker} (s : IsRunning b) where
  with_channel :
      (o : Option Bool) (open_now : Bool)
      → IsRunning (record b { shutdown = o; lst_open = open_now })
  with_channel o open_now = record {
    listener = s.listener;
    is_there = s.is_there;
    listener_reached = s.listener_reached;
    counted = s.counted;
    at_end = s.at_end;
    started = s.started;
  }

  with_delay : (d : ℕ) → IsRunning (record b { delay = d })
  with_delay d = record {
    listener = s.listener;
    is_there = s.is_there;
    listener_reached = s.listener_reached;
    counted = s.counted;
    at_end = s.at_end;
    started = s.started;
  }

-- Another listener, of which the wait still returns where it did.
with_listener :
    {b : TcpBroker} (s : IsRunning b) (l : MListener) (d : ℕ)
    → Listener.Reached l
    → (b.serving ≡ returned → wait_returns l ≡ true)
    → IsRunning (record b { lst = some l; delay = d })
with_listener s l d r h = record {
  listener = l;
  is_there = refl;
  listener_reached = r;
  counted = s.counted;
  at_end = h;
  started = s.started;
}

close-wait_returns :
    (l : MListener)
    → Listener.Reached l
    → (i : ℕ) → wait_returns l ≡ true
    → wait_returns (close_conn i l) ≡ true
unfolding close_conn
close-wait_returns l r i h = rw ((wait_returns_iff l r).0 h i) h

looped-IsRunning :
    (b : TcpBroker) (x : Accepted) → b.serving ≡ looping → IsRunning b → IsRunning (loop_turn x b)
unfolding loop_turn
looped-IsRunning b x e s = by_channel b.shutdown
  where
    stopping : IsRunning (record b { serving = waiting })
    stopping = record {
      listener = s.listener;
      is_there = s.is_there;
      listener_reached = s.listener_reached;
      counted = s.counted ∙ ap count e;
      at_end = λ q. cc;
      started = λ q. cc;
    }

    accepting : (x : Accepted) → IsRunning (accept_turn x b)
    accepting (connection bytes) = rw s.is_there (
        with_listener s (accept_conn s.listener) 1 (Listener.accepted s.listener_reached) (λ q. cc))
    accepting temporary = with_delay s (next_delay b.delay)
    accepting closed_listener = s
    accepting failed = stopping

    by_channel :
        (o : Option Bool)
        → IsRunning (if is_shut o then record b { serving = waiting } else accept_turn x b)
    by_channel none = accepting x
    by_channel (some true) = stopping
    by_channel (some false) = accepting x

wait_turn-IsRunning : (b : TcpBroker) → b.serving ≡ waiting → IsRunning b → IsRunning (wait_turn b)
unfolding wait_turn
wait_turn-IsRunning b e s = by_listener b.lst refl
  where
    over : TcpBroker
    over = record b { serving = returned; wg = b.wg - 1 }

    by_test : (t : Bool) → wait_returns s.listener ≡ t → IsRunning (if t then over else b)
    by_test true h = record {
      listener = s.listener;
      is_there = s.is_there;
      listener_reached = s.listener_reached;
      counted = ap (λ n. n - 1) (s.counted ∙ ap count e);
      at_end = λ q. h;
      started = λ q. cc;
    }
    by_test false h = s

    by_listener : (o : Option MListener) → b.lst ≡ o → IsRunning (if may_return o then over else b)
    by_listener none q = s
    by_listener (some l) q = by_test (wait_returns l) (ap wait_returns (listener_of s l q))

close_on-IsRunning : (b : TcpBroker) (i : ℕ) → IsRunning b → IsRunning (close_on i b)
unfolding close_on
close_on-IsRunning b i s = rw s.is_there (
    with_listener s (close_conn i s.listener) b.delay (Listener.closed s.listener_reached i)
      (λ q. close-wait_returns s.listener s.listener_reached i (s.at_end q)))

tcp_shutdown-IsRunning : (b : TcpBroker) → IsRunning b → IsRunning (tcp_shutdown b).1
unfolding tcp_shutdown
tcp_shutdown-IsRunning b s = by_channel b.shutdown
  where
    by_channel : (o : Option Bool) → IsRunning (close_channel o b).1
    by_channel none = s
    by_channel (some true) = s
    by_channel (some false) = by_listener b.lst
      where
        by_listener :
            (o : Option MListener)
            → IsRunning (close_listener o (record b { shutdown = some true })).1
        by_listener none = with_channel s (some true) b.lst_open
        by_listener (some l) = with_channel s (some true) false

pub Running-IsRunning : (net : Net) (b : TcpBroker) → Running net b → IsRunning b
Running-IsRunning net _ (listening g w address e) = new_tcp-IsRunning net g w address e
Running-IsRunning net _ (looped {b = b} r x h e) =
    looped-IsRunning b x e (Running-IsRunning net b r)
Running-IsRunning net _ (waited {b = b} r e) = wait_turn-IsRunning b e (Running-IsRunning net b r)
Running-IsRunning net _ (closed {b = b} r i) = close_on-IsRunning b i (Running-IsRunning net b r)
Running-IsRunning net _ (shut {b = b} r) = tcp_shutdown-IsRunning b (Running-IsRunning net b r)

pub closed_listener_of :
    (b : TcpBroker) (s : IsRunning b) → (wait_returns s.listener ≡ true) ↔ AllClosed b
closed_listener_of b s =
    let w = wait_returns_iff s.listener s.listener_reached in
    (
      λ h l e i. subst (λ l. is_counted l.counted i ≡ false) (listener_of s l e) (w.0 h i),
      λ c. w.1 (c s.listener s.is_there),
    )

-- ===== src/Server/Sound.antt =====
-- What every stretch of server/ keeps true of the shared state: the rules, one for each way to
-- build a stretch.
pub mod Publishing
pub mod Closing
pub mod Starting
pub mod Subscribing
pub mod Turns
use magic_mqtt.Prelude.{
  ℕ, ◌≡◌, refl, Bool, true, false, Bool-cases, inl, inr, Option, none, some, List, [], ◌∷◌, ◌++◌,
  ◌==◌, if◌then◌else◌,
}
use magic_mqtt.Message.{Message}
use magic_mqtt.Common.MessageTable.{update}
use magic_mqtt.Topics.Memory.{MemTopics}
use magic_mqtt.Topics.Memory.Calls
use magic_mqtt.Sessions.Session.{Session}
use magic_mqtt.Sessions.Session.Offline
use magic_mqtt.Sessions.Group.{Group}
use magic_mqtt.Sessions.Group.Own
use magic_mqtt.Server.State.{Board, Conn}
use magic_mqtt.Server.Close.{change_conn}
use magic_mqtt.Server.Action.{
  Action, Result, done, panic, blocked, bind, pure, panics, blocks, gets, modify, ◌>>=◌, for_each,
  set_conn, get_conn, put_conn, send, send_to, on_session, update_session, set_session,
  with_session, change_session, is_stuck, lock, unlock, set_lock,
}

-- The provider, the group of sessions and every session are in a state that calls of their own
-- methods lead to.
pub record IsSound {A : Type 0} (w : Board A) : Type 0 where
  pub topics_reached : Calls.Reached w.topics
  pub sessions_reached : Own.Reached w.sessions
  pub each_reached : (a : ℕ) → Offline.Reached (w.sessions.heap a)

-- A stretch keeps that, however it ends.
pub record Keeps {A X : Type 0} (m : Action A X) : Type 0 where
  pub at : (w : Board A) → IsSound w → IsSound (m w).1

pub update-Reached :
    (heap : ℕ → Session ℕ) (a : ℕ) (s : Session ℕ)
    → ((b : ℕ) → Offline.Reached (heap b))
    → Offline.Reached s
    → (b : ℕ) → Offline.Reached (update heap a s b)
update-Reached heap a s h r b = by_test (a == b)
  where
    by_test : (t : Bool) → Offline.Reached (if t then s else heap b)
    by_test true = r
    by_test false = h b

module _ {A X Y : Type 0} where
  bind-IsSound :
      (p : Result X × Board A) (f : X → Action A Y)
      → IsSound p.1
      → ((x : X) → Keeps (f x))
      → IsSound (bind p f).1
  bind-IsSound (done x, w) f s k = (k x).at w s
  bind-IsSound (panic, w) f s k = s
  bind-IsSound (blocked, w) f s k = s

  pub Keeps-bind :
      (m : Action A X) (f : X → Action A Y) → Keeps m → ((x : X) → Keeps (f x)) → Keeps (m >>= f)
  Keeps-bind m f h k = record { at = λ w s. bind-IsSound (m w) f (h.at w s) k }

module _ {A X : Type 0} where
  pub Keeps-pure : (x : X) → Keeps (pure {A = A} x)
  Keeps-pure x = record { at = λ w s. s }

  pub Keeps-panics : Keeps (panics {A = A} {X = X})
  Keeps-panics = record { at = λ w s. s }

  pub Keeps-blocks : Keeps (blocks {A = A} {X = X})
  Keeps-blocks = record { at = λ w s. s }

  pub Keeps-gets : (f : Board A → X) → Keeps (gets f)
  Keeps-gets f = record { at = λ w s. s }

  -- A call that looks at the state before it goes on.
  pub Keeps-look : (f : Board A → Action A X) → ((w : Board A) → Keeps (f w)) → Keeps (λ w. f w w)
  Keeps-look f k = record { at = λ w s. (k w).at w s }

  pub Keeps-if : (b : Bool) (m n : Action A X) → Keeps m → Keeps n → Keeps (if b then m else n)
  Keeps-if true m n h k = h
  Keeps-if false m n h k = k

  -- A method of a session, if it leads from a state of the session to one that calls lead to.
  pub Keeps-on_session :
      (a : ℕ) (f : Session ℕ → X × Session ℕ)
      → ((s : Session ℕ) → Offline.Reached s → Offline.Reached (f s).1)
      → Keeps (on_session {A = A} a f)
  Keeps-on_session a f k = record { at = λ w s. by_lock w s (w.locked a) }
    where
      by_lock :
          (w : Board A)
          → IsSound w
          → (t : Bool)
          → IsSound
              (if t
                then (let r : Result X × Board A = (blocked, w) in r)
                else (done (f (w.sessions.heap a)).0, set_session a (f (w.sessions.heap a)).1 w)).1
      by_lock w s true = s
      by_lock w s false = record {
        topics_reached = s.topics_reached;
        sessions_reached =
            Own.changed s.sessions_reached (update w.sessions.heap a (f (w.sessions.heap a)).1);
        each_reached =
            update-Reached w.sessions.heap a (f (w.sessions.heap a)).1 s.each_reached
              (k (w.sessions.heap a) (s.each_reached a));
      }

  pub Keeps-with_session :
      (a : ℕ) (f : Session ℕ → X × Session ℕ)
      → ((s : Session ℕ) → Offline.Reached s → Offline.Reached (f s).1)
      → Keeps (with_session {A = A} a f)
  Keeps-with_session a f k = record {
    at = λ w s. record {
      topics_reached = s.topics_reached;
      sessions_reached =
          Own.changed s.sessions_reached (update w.sessions.heap a (f (w.sessions.heap a)).1);
      each_reached =
          update-Reached w.sessions.heap a (f (w.sessions.heap a)).1 s.each_reached
            (k (w.sessions.heap a) (s.each_reached a));
    };
  }

module _ {A : Type 0} where
  -- A change of the connections, locks or subscriptions.
  pub Keeps-aside :
      (f : Board A → Board A)
      → ((w : Board A) → (f w).topics ≡ w.topics)
      → ((w : Board A) → (f w).sessions ≡ w.sessions)
      → Keeps (modify f)
  Keeps-aside f t g = record {
    at = λ w s. record {
      topics_reached = rw (t w) s.topics_reached;
      sessions_reached = rw (g w) s.sessions_reached;
      each_reached = rw (g w) s.each_reached;
    };
  }

  pub Keeps-for_each :
      {E : Type 0} (body : E → Action A (Unit {0})) (xs : List E)
      → ((x : E) → Keeps (body x))
      → Keeps (for_each body xs)
  unfolding for_each
  Keeps-for_each body [] k = Keeps-pure tt
  Keeps-for_each body (x ∷ xs) k =
      Keeps-bind (body x) (λ _. for_each body xs) (k x) (λ _. Keeps-for_each body xs k)

  pub Keeps-conn : (c : ℕ) (k : Conn) → Keeps (put_conn {A = A} c k)
  Keeps-conn c k = Keeps-aside (set_conn c k) (λ w. refl) (λ w. refl)

  pub Keeps-send : (c : ℕ) (msg : Message) → Keeps (send {A = A} c msg)
  unfolding send
  Keeps-send c msg =
      Keeps-look (λ w. send_to c msg (w.conns c))
        (λ w.
          Keeps-if (w.conns c).queue_closed panics
            (if is_stuck (w.conns c)
              then blocks
              else put_conn c (record (w.conns c) { queue = (w.conns c).queue ++ msg ∷ [] }))
            Keeps-panics
            (Keeps-if (is_stuck (w.conns c)) blocks
              (put_conn c (record (w.conns c) { queue = (w.conns c).queue ++ msg ∷ [] }))
              Keeps-blocks
              (Keeps-conn c (record (w.conns c) { queue = (w.conns c).queue ++ msg ∷ [] }))))

  pub Keeps-change : (c : ℕ) (f : Conn → Conn) → Keeps (change_conn {A = A} c f)
  Keeps-change c f = Keeps-aside (λ w. set_conn c (f (w.conns c)) w) (λ w. refl) (λ w. refl)

  pub Keeps-change_session :
      (a : ℕ) (f : Session ℕ → Session ℕ)
      → ((s : Session ℕ) → Offline.Reached s → Offline.Reached (f s))
      → Keeps (change_session {A = A} a f)
  Keeps-change_session a f k = Keeps-with_session a (λ s. (tt, f s)) k

  pub Keeps-lock : (a : ℕ) → Keeps (lock {A = A} a)
  Keeps-lock a = record { at = λ w s. by_lock w s (w.locked a) }
    where
      by_lock :
          (w : Board A)
          → IsSound w
          → (t : Bool)
          → IsSound
              (if t
                then (let r : Result (Unit {0}) × Board A = (blocked, w) in r)
                else (done tt, set_lock a true w)).1
      by_lock w s true = s
      by_lock w s false = record {
        topics_reached = s.topics_reached;
        sessions_reached = s.sessions_reached;
        each_reached = s.each_reached;
      }

  pub Keeps-unlock : (a : ℕ) → Keeps (unlock {A = A} a)
  Keeps-unlock a = Keeps-aside (set_lock a false) (λ w. refl) (λ w. refl)

  pub Keeps-update_session :
      (a : ℕ) (f : Session ℕ → Session ℕ)
      → ((s : Session ℕ) → Offline.Reached s → Offline.Reached (f s))
      → Keeps (update_session {A = A} a f)
  Keeps-update_session a f k = Keeps-on_session a (λ s. (tt, f s)) k

  -- A change of the provider by one of its methods.
  pub Keeps-topics :
      (f : Board A → MemTopics)
      → ((w : Board A) → Calls.Reached w.topics → Calls.Reached (f w))
      → Keeps (modify (λ w. record w { topics = f w }))
  Keeps-topics f k = record {
    at = λ w s. record {
      topics_reached = k w s.topics_reached;
      sessions_reached = s.sessions_reached;
      each_reached = s.each_reached;
    };
  }

pub ruleset keeps_rules = (
  Keeps-bind, Keeps-pure, Keeps-panics, Keeps-blocks, Keeps-gets, Keeps-if, Keeps-send, Keeps-conn,
  Keeps-change, Keeps-for_each,
)

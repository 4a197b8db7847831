-- ===== src/Server/Action.antt =====
-- A stretch of a goroutine of server/ between two waits for others: the shared state is passed
-- along, and the stretch returns, panics, or waits for ever: for something that only itself could
-- give, such as a lock that it holds, or for room in a channel that nobody receives from.
pub mod States
use magic_mqtt.Prelude.{
  ℕ, Bool, true, false, Option, none, some, List, [], ◌∷◌, ◌++◌, if◌then◌else◌, ◌&&◌, ◌||◌, not,
  leb, length,
}
use magic_mqtt.Message.{Message}
use magic_mqtt.Sessions.Session.{Session}
use magic_mqtt.Common.MessageTable.{update}
use magic_mqtt.Server.State.{Board, Conn}

pub data Result (X : Type 0) : Type 0 where
  done : X → Result X
  panic blocked : Result X

abbrev pub Action : Type 0 → Type 0 → Type 0
Action A X = Board A → Result X × Board A

module _ {A X : Type 0} where
  abbrev pub pure : X → Action A X
  pure x w = (done x, w)

  abbrev pub panics : Action A X
  panics w = (panic, w)

  abbrev pub blocks : Action A X
  blocks w = (blocked, w)

  abbrev pub gets : (Board A → X) → Action A X
  gets f w = (done (f w), w)

abbrev pub modify : {A : Type 0} → (Board A → Board A) → Action A (Unit {0})
modify f w = (done tt, f w)

module _ {A X Y : Type 0} where
  abbrev pub bind : Result X × Board A → (X → Action A Y) → Result Y × Board A
  bind (done x, w) f = f x w
  bind (panic, w) f = (panic, w)
  bind (blocked, w) f = (blocked, w)

infixl 5 ◌>>=◌ ◌>>◌
abbrev pub ◌>>=◌ : {A X Y : Type 0} → Action A X → (X → Action A Y) → Action A Y
◌>>=◌ m f w = bind (m w) f

abbrev pub ◌>>◌ : {A X Y : Type 0} → Action A X → Action A Y → Action A Y
m >> k = m >>= λ _. k

-- Whether the channel is full and no goroutine receives from it any more: neither the one of
-- `HandleConnection` that writes nor the loop of `Close`.
abbrev pub is_stuck : Conn → Bool
is_stuck k = leb k.capacity (length k.queue) && not (k.writing || k.draining)

module _ {A : Type 0} where
  -- A loop over a list.
  unfoldable pub for_each : {E : Type 0} → (E → Action A (Unit {0})) → List E → Action A (Unit {0})
  for_each body [] = pure tt
  for_each body (x ∷ xs) = body x >> for_each body xs

  abbrev pub set_conn : ℕ → Conn → Board A → Board A
  set_conn c k w = record w { conns = update w.conns c k }

  abbrev pub get_conn : ℕ → Action A Conn
  get_conn c = gets (λ w. w.conns c)

  abbrev pub put_conn : ℕ → Conn → Action A (Unit {0})
  put_conn c k = modify (set_conn c k)

  -- `ConBroker.WriteMessage`: a send on a closed channel panics, and one on a full channel that nobody
  -- receives from waits for ever. Where somebody does, it waits until there is room; the queue here
  -- holds what waits for room too.
  abbrev pub send_to : ℕ → Message → Conn → Action A (Unit {0})
  send_to c msg k =
      if k.queue_closed
      then panics
      else if is_stuck k
      then blocks
      else put_conn c (record k { queue = k.queue ++ msg ∷ [] })

  unfoldable pub send : ℕ → Message → Action A (Unit {0})
  send c msg w = send_to c msg (w.conns c) w

  abbrev pub set_session : ℕ → Session ℕ → Board A → Board A
  set_session a s w =
      let heap = update w.sessions.heap a s in
      record w { sessions = record (w.sessions) { heap = heap } }

  -- A method of a session that calls nothing: the lock is taken and given back. A lock that is taken
  -- belongs to a goroutine that waits for ever, since no method gives it back later.
  abbrev pub on_session : {X : Type 0} → ℕ → (Session ℕ → X × Session ℕ) → Action A X
  on_session a f w =
      if w.locked a
      then (blocked, w)
      else (let (x, s) = f (w.sessions.heap a) in (done x, set_session a s w))

  -- A method of a session that takes no lock, or the inside of one that does.
  abbrev pub with_session : {X : Type 0} → ℕ → (Session ℕ → X × Session ℕ) → Action A X
  with_session a f w = let (x, s) = f (w.sessions.heap a) in (done x, set_session a s w)

  abbrev pub change_session : ℕ → (Session ℕ → Session ℕ) → Action A (Unit {0})
  change_session a f = with_session a (λ s. (tt, f s))

  abbrev pub update_session : ℕ → (Session ℕ → Session ℕ) → Action A (Unit {0})
  update_session a f = on_session a (λ s. (tt, f s))

  abbrev pub set_lock : ℕ → Bool → Board A → Board A
  set_lock a b w = record w { locked = update w.locked a b }

  -- `_sync.Lock()` of a session, and `_sync.Unlock()`.
  abbrev pub lock : ℕ → Action A (Unit {0})
  lock a w = if w.locked a then (blocked, w) else (done tt, set_lock a true w)

  abbrev pub unlock : ℕ → Action A (Unit {0})
  unlock a = modify (set_lock a false)

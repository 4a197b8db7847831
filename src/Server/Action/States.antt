-- ===== src/Server/Action/States.antt =====
-- Changes of the state of server/ one behind the other, and sends on an open queue that has room.
use magic_mqtt.Prelude.{
  ℕ, ◌≡◌, refl, sym, ap, ◌∙◌, Bool, true, false, List, [], ◌∷◌, ◌++◌, append-nil, append_assoc,
  ==_refl, ==_iff, ◌<◌, ◌≤◌, ◌+◌, length, length-append, leb, arith, ◌==◌, if◌then◌else◌,
}
use magic_mqtt.Message.{Message}
use magic_mqtt.Sessions.Session.{Session}
use magic_mqtt.Common.MessageTable.{update}
use magic_mqtt.Server.State.{Board, Conn}
use magic_mqtt.Server.Action.{
  Action, Result, done, bind, ◌>>◌, for_each, set_conn, send, set_session, update_session,
}

module _ {X : Type 0} where
  pub update_self : (f : ℕ → X) (a : ℕ) → update f a (f a) ≡ f
  update_self f a i b = by_test (a == b) refl i
    where
      by_test : (t : Bool) → (a == b) ≡ t → (if t then f a else f b) ≡ f b
      by_test true e = ap f ((==_iff a b).0 e)
      by_test false e = refl

  pub update-update : (f : ℕ → X) (a : ℕ) (x y : X) → update (update f a x) a y ≡ update f a y
  update-update f a x y i b = by_test (a == b) i
    where
      by_test : (t : Bool) → (if t then y else (if t then x else f b)) ≡ (if t then y else f b)
      by_test true = refl
      by_test false = refl

module _ {A : Type 0} where
  pub set_session_self : (a : ℕ) (w : Board A) → set_session a (w.sessions.heap a) w ≡ w
  set_session_self a w i =
      let heap = update_self w.sessions.heap a i in
      record w { sessions = record (w.sessions) { heap = heap } }

  pub set_conn_self : (c : ℕ) (w : Board A) → set_conn c (w.conns c) w ≡ w
  set_conn_self c w i = record w { conns = update_self w.conns c i }

  pub set_conn_twice :
      (c : ℕ) (k l : Conn) (w : Board A) → set_conn c l (set_conn c k w) ≡ set_conn c l w
  set_conn_twice c k l w i = record w { conns = update-update w.conns c k l i }

  pub send_open :
      (c : ℕ) (msg : Message) (w : Board A)
      → (w.conns c).queue_closed ≡ false
      → length (w.conns c).queue < (w.conns c).capacity
      → send c msg w
        ≡ (done tt, set_conn c (record (w.conns c) { queue = (w.conns c).queue ++ msg ∷ [] }) w)
  unfolding send
  send_open c msg w e r =
      let room : leb (w.conns c).capacity (length (w.conns c).queue) ≡ false = ground arith in
      rw (e, room) refl

  for_each_cons :
      {E : Type 0} (body : E → Action A (Unit {0})) (x : E) (xs : List E) (w : Board A)
      → for_each body (x ∷ xs) w ≡ bind (body x w) (λ _. for_each body xs)
  unfolding for_each
  for_each_cons body x xs w = refl

  pub for_each-send :
      (c : ℕ) (ms : List Message) (w : Board A)
      → (w.conns c).queue_closed ≡ false
      → length (w.conns c).queue + length ms ≤ (w.conns c).capacity
      → for_each (send c) ms w
        ≡ (done tt, set_conn c (record (w.conns c) { queue = (w.conns c).queue ++ ms }) w)
  for_each-send c [] w e r =
      unfold for_each in
      rw (append-nil (w.conns c).queue)
        (ap (λ (v : Board A). (done tt, v)) (sym (set_conn_self c w)))
  for_each-send c (m ∷ ms) w e r =
      for_each_cons (send c) m ms w
      ∙ ap (λ (p : Result (Unit {0}) × Board A). bind p (λ _. for_each (send c) ms))
          (send_open c m w e (omega arith))
      ∙ for_each-send c ms w' (rw same e) more
      ∙ rw (same, append_assoc (w.conns c).queue (m ∷ []) ms)
          (ap (λ (v : Board A). (done tt, v)) (set_conn_twice c k' _ w))
    where
      k' : Conn
      k' = record (w.conns c) { queue = (w.conns c).queue ++ m ∷ [] }

      w' : Board A
      w' = set_conn c k' w

      same : w'.conns c ≡ k'
      same = rw (==_refl c) refl

      more : length (w'.conns c).queue + length ms ≤ (w'.conns c).capacity
      more = rw same (let len = length-append (w.conns c).queue (m ∷ []) in omega arith)

  -- A method of a session whose lock is free, with what follows.
  pub update_session-free :
      {X : Type 0} (a : ℕ) (f : Session ℕ → Session ℕ) (rest : Action A X) (w : Board A)
      → w.locked a ≡ false
      → (update_session a f >> rest) w ≡ rest (set_session a (f (w.sessions.heap a)) w)
  update_session-free a f rest w l = rw l refl

  pub set_session_twice :
      (a : ℕ) (s t : Session ℕ) (w : Board A)
      → set_session a t (set_session a s w) ≡ set_session a t w
  set_session_twice a s t w i =
      let heap = update-update w.sessions.heap a s t i in
      record w { sessions = record (w.sessions) { heap = heap } }

  -- A lock that is free is so again behind a method that took it.
  pub locked_back :
      (a : ℕ) (w : Board A)
      → w.locked a ≡ false
      → update (update w.locked a true) a false ≡ w.locked
  locked_back a w l =
      update-update w.locked a true false ∙ ap (update w.locked a) (sym l) ∙ update_self w.locked a

-- ===== src/Server/Connect/TakeOver.antt =====
-- `onConnect` of server/conBroker.go for a client whose session another connection has.
use magic_mqtt.Prelude.{ℕ, ◌≡◌, ◌≢◌, refl, Bool, true, false, none, some, ==_refl, if◌then◌else◌}
use magic_mqtt.Packet.Connect.{Connect}
use magic_mqtt.Sessions.Session.{do_disconnect}
use magic_mqtt.Sessions.Group.{group_get, group_get_or_new}
use magic_mqtt.Server.State.{Board, over}
use magic_mqtt.Server.Action.{blocked, blocks, ◌>>◌, modify, set_lock}
use magic_mqtt.Server.Close.{close, terminate, disconnect_session}
use magic_mqtt.Server.Close.Waits.{close-blocked, bind-blocked}
use magic_mqtt.Server.Connect.{on_connect, auth_connect, accept, use_client, clean_start, resume}

module _ {A : Type 0} where
  -- The old connection of a session is held by the lock that the caller has taken.
  disconnect_session-blocked :
      (a d : ℕ) (w : Board A)
      → (w.sessions.heap a).on_disconnect ≡ some d
      → (w.conns d).once ≢ over
      → (w.conns d).will_msg ≡ none
      → (w.conns d).session ≡ some a
      → (disconnect_session a w).0 ≡ blocked
  unfolding disconnect_session do_disconnect
  disconnect_session-blocked a d w e o f g = by_lock (w.locked a)
    where
      by_lock :
          (t : Bool)
          → ((if t then blocks else (do
            modify (set_lock a true)
            terminate (do_disconnect (w.sessions.heap a))
            modify (set_lock a false)))
              w).0
            ≡ blocked
      by_lock true = refl
      by_lock false = rw e (
          bind-blocked (close d (set_lock a true w)) (λ _. modify (set_lock a false))
            (close-blocked d a (set_lock a true w) o f g (rw (==_refl a) refl)))

  -- `onConnect` of a connection that has not connected, for an identifier that authentication accepts, never returns where the session of the
  -- client has the disconnect function of another connection, one that works with this session, has
  -- no will and has not been closed, with and without a clean session.
  pub on_connect-blocked :
      (c a d : ℕ) (msg : Connect) (w : Board A)
      → (w.conns c).connected ≡ false
      → (w.auth.connect msg.identifier msg.user_name msg.password w.auth.state).0 ≡ none
      → group_get msg.identifier w.sessions ≡ some a
      → (w.sessions.heap a).on_disconnect ≡ some d
      → (w.conns d).once ≢ over
      → (w.conns d).will_msg ≡ none
      → (w.conns d).session ≡ some a
      → ((on_connect c msg w).0 ≡ blocked)
  unfolding on_connect accept clean_start resume group_get group_get_or_new
  on_connect-blocked c a d msg w n auth found e o f g =
      rw (n, auth)
        (bind-blocked ((if msg.clean_session then clean_start c msg else resume c msg) w1)
          (use_client c msg) (by_kind msg.clean_session))
    where
      w1 : Board A
      w1 = (auth_connect msg w).1

      stays : (disconnect_session a w1).0 ≡ blocked
      stays = disconnect_session-blocked a d w1 e o f g

      by_kind :
          (clean : Bool) → ((if clean then clean_start c msg else resume c msg) w1).0 ≡ blocked
      by_kind true = rw found (bind-blocked (disconnect_session a w1) _ stays)
      by_kind false = rw found (bind-blocked (disconnect_session a w1) _ stays)

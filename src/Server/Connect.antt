-- ===== src/Server/Connect.antt =====
-- The start of a connection: `onConnect` of server/conBroker.go.
pub mod TakeOver
pub mod Answers
pub mod Resumed
pub mod New
use magic_mqtt.Prelude.{ℕ, Bool, true, false, Option, none, some, List, [], ◌∷◌, if◌then◌else◌}
use magic_mqtt.Packet.Connack
use magic_mqtt.Packet.Connect.{Connect, Will}
use magic_mqtt.Message.{Message, connack}
use magic_mqtt.Sessions.Session.{
  Session, with_client_id, with_on_disconnect, with_on_write, offline_messages,
}
use magic_mqtt.Sessions.Group.{Group, group_get, group_new, group_get_or_new}
use magic_mqtt.Server.State.{Board, Conn, AuthError, client_not, user_name_or_pwd}
use magic_mqtt.Server.Action.{
  Action, done, pure, gets, modify, ◌>>=◌, ◌>>◌, for_each, get_conn, put_conn, send, on_session,
  update_session, change_session,
}
use magic_mqtt.Server.Close.{change_conn, disconnect_session}

abbrev pub refusal : AuthError → ℕ
refusal client_not = 0x05
refusal user_name_or_pwd = 0x04

-- The deferred answer.
abbrev pub connack_of : ℕ → Message
connack_of code = connack (record Connack.spawn { return_code = code })

abbrev pub will_or : Option Will → Option Will → Option Will
will_or none old = old
will_or (some will) old = some will

module _ {A : Type 0} where
  -- `blackboard.Instance().Auth.Connect`
  abbrev pub auth_connect : Connect → Action A (Option AuthError)
  auth_connect msg w =
      let (e, state) = w.auth.connect msg.identifier msg.user_name msg.password w.auth.state in
      (done e, record w { auth = record (w.auth) { state = state } })

  abbrev pub in_group : {X : Type 0} → (Group ℕ → X × Group ℕ) → Action A X
  in_group f w = let (x, g) = f w.sessions in (done x, record w { sessions = g })

  abbrev pub disconnect_old : Option ℕ → Action A (Unit {0})
  disconnect_old none = pure tt
  disconnect_old (some a) = disconnect_session a

  abbrev pub use_session : ℕ → ℕ → Action A (Unit {0})
  use_session c a = change_conn c (λ k. record k { session = some a })

  -- A clean session takes the place of the one that the client has.
  unfoldable pub clean_start : ℕ → Connect → Action A ℕ
  clean_start c msg = do
    old ← gets (λ w. group_get msg.identifier w.sessions)
    disconnect_old old
    limit ← gets (λ w. w.deploy.offline_queue_size)
    a ← in_group (group_new msg.identifier limit)
    use_session c a
    pure a

  -- Else the client's session goes on. Its topics are not subscribed again, since that is done only
  -- where `Topics` answers an error, which it never does.
  unfoldable pub resume : ℕ → Connect → Action A ℕ
  resume c msg = do
    limit ← gets (λ w. w.deploy.offline_queue_size)
    (a, there) ← in_group (group_get_or_new msg.identifier limit)
    if there then disconnect_session a else pure tt
    use_session c a
    offline ← on_session a offline_messages
    for_each (send c) offline
    pure a

  abbrev pub use_client : ℕ → Connect → ℕ → Action A (Unit {0})
  use_client c msg a = do
    update_session a (with_on_disconnect (some c))
    update_session a (with_on_write (some c))
    change_session a (with_client_id msg.identifier)
    change_conn c (λ k. record k {
      clean_session = msg.clean_session;
      will_msg = will_or msg.will k.will_msg;
      connected = true;
    })
    send c (connack_of 0)

  unfoldable pub accept : ℕ → Connect → Action A (Unit {0})
  accept c msg =
      (if msg.clean_session then clean_start c msg else resume c msg) >>= λ a. use_client c msg a

  abbrev pub answer_auth : ℕ → Connect → Option AuthError → Action A (Unit {0})
  answer_auth c msg (some e) = send c (connack_of (refusal e))
  answer_auth c msg none = accept c msg

  abbrev pub authenticate : ℕ → Connect → Action A (Unit {0})
  authenticate c msg = do e ← auth_connect msg; answer_auth c msg e

  -- `onConnect`
  unfoldable pub on_connect : ℕ → Connect → Action A (Unit {0})
  on_connect c msg = do k ← get_conn c; if k.connected then pure tt else authenticate c msg

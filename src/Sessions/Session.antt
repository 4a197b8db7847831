-- ===== src/Sessions/Session.antt =====
-- sessions/session.go. The functions that a session is given are methods of a connection, bound to
-- it; the session keeps the connection, of the type `C`, in their place, and a method that calls
-- one answers the connection whose method is to be called. The mutex makes each method one step.
pub mod Offline
pub mod Confirmation
use magic_mqtt.Prelude.{
  ℕ, Bool, true, false, Option, none, some, List, [], ◌∷◌, ◌++◌, map, length, leb, if◌then◌else◌,
}
use magic_mqtt.Message.{Message, publish}
use magic_mqtt.Packet.Publish.{Publish}
use magic_mqtt.Sessions.StringMap.{StringMap, store, delete}
use magic_mqtt.Common.MessageTable.{
  MessageTable, new_table, with_on_finish, new_id, register, unref,
}

pub data SessionError : Type 0 where
  offline_queue_full write_failed : SessionError

-- A Go error; `none` is nil.
abbrev pub Error : Type 0
Error = Option SessionError

-- What `WriteMessage` comes to: an error, or the call of a connection's function with the message,
-- under the lock, whose error it answers.
pub data Write (C : Type 0) : Type 0 where
  answered : Error → Write C
  passed : C → Write C

-- The opaque value of the messages registered is nil, so the type of those values is `Unit`.
pub record Session (C : Type 0) : Type 0 where
  pub client_id : List ℕ
  pub on_write : Option C
  pub offline_queue : List Message
  pub wait_ack : MessageTable (Unit {0})
  pub topics : StringMap ℕ
  pub offline_limit : ℕ
  pub on_disconnect : Option C

module _ {C : Type 0} where
  -- `newSession`. Its callback closes the channel that an opaque value may hold, and does nothing
  -- with nil.
  unfoldable pub new_session : ℕ → Session C
  new_session offline_limit = record {
    client_id = [];
    on_write = none;
    offline_queue = [];
    wait_ack = with_on_finish new_table;
    topics = [];
    offline_limit = offline_limit;
    on_disconnect = none;
  }

  unfoldable pub with_client_id : List ℕ → Session C → Session C
  with_client_id id s = record s { client_id = id }

  unfoldable pub with_on_disconnect : Option C → Session C → Session C
  with_on_disconnect f s = record s { on_disconnect = f }

  unfoldable pub with_on_write : Option C → Session C → Session C
  with_on_write f s = record s { on_write = f }

  unfoldable pub add_topics : List ℕ → ℕ → Session C → Session C
  add_topics topic qos s = record s { topics = store s.topics topic qos }

  unfoldable pub remove_topics : List ℕ → Session C → Session C
  remove_topics topic s = record s { topics = delete s.topics topic }

  -- `Topics`: the names, the QoS levels, and an error that is always nil.
  unfoldable pub topic_list : Session C → List (List ℕ) × List ℕ × Error
  topic_list s =
      (map (λ (e : List ℕ × ℕ). e.0) s.topics, map (λ (e : List ℕ × ℕ). e.1) s.topics, none)

  -- `DoDisconnect`: the connection whose function is called, under the lock of the session.
  unfoldable pub do_disconnect : Session C → Option C
  do_disconnect s = s.on_disconnect

  unfoldable pub push_offline_message : Message → Session C → Error × Session C
  push_offline_message msg s =
      if leb s.offline_limit (length s.offline_queue)
      then (some offline_queue_full, s)
      else (none, record s { offline_queue = s.offline_queue ++ msg ∷ [] })

  abbrev pub kept : Error × Session C → Write C × Session C
  kept (e, s) = (answered e, s)

  abbrev pub write_with : Option C → Message → Session C → Write C × Session C
  write_with none msg s = kept (push_offline_message msg s)
  write_with (some c) msg s = (passed c, s)

  -- `WriteMessage`; the lines for a session without a writer are those of `PushOfflineMessage`.
  unfoldable pub write_message : Message → Session C → Write C × Session C
  write_message msg s = write_with s.on_write msg s

  unfoldable pub offline_messages : Session C → List Message × Session C
  offline_messages s = (s.offline_queue, record s { offline_queue = [] })

  -- `RegisterMessage`: the message, which is shared, gets the identifier too.
  unfoldable pub register_message : Publish → Session C → ℕ × Publish × Session C
  register_message msg s =
      let (id, t) = new_id s.wait_ack in
      let msg' : Publish = record msg { packet_identifier = id } in
      (id, msg', record s { wait_ack = register t id (publish msg') tt })

  -- `UnRefMessage`
  unfoldable pub unref_message : ℕ → Session C → Session C
  unref_message id s = record s { wait_ack = (unref s.wait_ack id).1 }

  -- `WithOnFinish`: a session's table has a callback from the start, so this only replaces it.
  unfoldable pub replace_on_finish : Session C → Session C
  replace_on_finish s = record s { wait_ack = with_on_finish s.wait_ack }

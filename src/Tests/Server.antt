-- ===== src/Tests/Server.antt =====
-- The theorems on server/ and auth/ at a small broker.
use magic_mqtt.Prelude.{
  ℕ, ◌≡◌, refl, true, false, none, some, List, [], ◌∷◌, ◌++◌, take, ◌==◌, if◌then◌else◌, arith,
}
use magic_mqtt.Packet.Connect
use magic_mqtt.Packet.Connect.{Connect}
use magic_mqtt.Packet.Publish
use magic_mqtt.Packet.Publish.{Publish}
use magic_mqtt.Packet.Pingreq
use magic_mqtt.Packet.Connack
use magic_mqtt.Message.{Message, publish, pingreq, connack, get_type}
use magic_mqtt.Topics.Memory.{new_mem}
use magic_mqtt.Sessions.Session.{Session, new_session}
use magic_mqtt.Sessions.Session.Offline.{Bounded}
use magic_mqtt.Sessions.StringMap.{lookup}
use magic_mqtt.Sessions.Group.{group_get}
use magic_mqtt.Server.State.{Board, Conn, State, fresh, running, over}
use magic_mqtt.Server.Action.{done, blocked}
use magic_mqtt.Server.Connect.{on_connect}
use magic_mqtt.Server.Connect.TakeOver.{on_connect-blocked}
use magic_mqtt.Server.Connect.Answers.{used_by}
use magic_mqtt.Server.Connect.Resumed.{on_connect_resumed}
use magic_mqtt.Server.Connect.New.{on_connect_new}
use magic_mqtt.Server.Close.{close, drain_turn}
use magic_mqtt.Server.Close.Waits.{unsubscribe_all}
use magic_mqtt.Server.Close.Ends.{is_of_connection, close-waits}
use magic_mqtt.Server.Close.Clean.{close-ends}
use magic_mqtt.Server.Listener.{MListener, new_listener, accept_conn, close_conn}
use magic_mqtt.Auth.{mock_auth, mock_connect}
use magic_mqtt.Topics.Level.{same}

-- The client "a".
abbrev pub name : List ℕ
name = b'a' ∷ []

abbrev pub keeping : Message
keeping = publish (record (Publish.spawn) { topic_name = b't' ∷ []; payload = 1 ∷ [] })

-- A session that nobody uses, with a message.
abbrev pub idle : Session ℕ
idle = record (new_session 2) { client_id = name; offline_queue = keeping ∷ [] }

abbrev pub unconnected : Conn
unconnected = record {
  queue = [];
  capacity = 5;
  queue_closed = false;
  kicker = true;
  keepalive = 60;
  session = none;
  will_msg = none;
  subscription = [];
  connected = false;
  clean_session = false;
  ping = 0;
  state = State.connected;
  once = fresh;
  reading = true;
  writing = true;
  draining = false;
  incoming = [];
  outgoing = [];
}

-- A connection that uses the session at 0, with a message and a ping in its queue.
abbrev pub in_use : Conn
in_use = record unconnected {
  connected = true;
  session = some 0;
  queue = keeping ∷ pingreq Pingreq.spawn ∷ [];
}

-- The broker, with the connections `k0` and `k1`, the session of "a" at 0 and, where `ss` says so,
-- in the group.
abbrev pub broker : Conn → Conn → Session ℕ → List (List ℕ × ℕ) → Board (Unit {0})
broker k0 k1 s ss = record {
  deploy = record {
    keepalive = 60;
    offline_queue_size = 2;
    message_queue_size = 5;
    message_size = 100;
  };
  auth = mock_auth;
  sessions = record { ss = ss; heap = λ a. if a == 0 then s else new_session 2; next = 1 };
  locked = λ a. false;
  topics = new_mem;
  subs = λ p. record { client = name; topic = b't' ∷ []; qos = 1 };
  next_sub = 1;
  conns = λ c. if c == 0 then k0 else k1;
  next_conn = 2;
}

abbrev pub hello : Connect
hello = record (Connect.spawn) { identifier = name }

abbrev pub used : Board (Unit {0})
used = broker unconnected in_use (record idle { on_disconnect = some 1 }) ((name, 0) ∷ [])

abbrev pub resting : Board (Unit {0})
resting = broker unconnected in_use idle ((name, 0) ∷ [])

abbrev nobody : Board (Unit {0})
nobody = broker unconnected in_use idle []

on_connect-blocked_example : (on_connect 0 hello used).0 ≡ blocked
unfolding group_get lookup mock_connect same
on_connect-blocked_example =
    on_connect-blocked 0 0 1 hello used refl refl refl refl (λ e. cc) refl refl

on_connect_resumed_example :
    (let r = on_connect 0 hello resting in
      (r.0 ≡ done tt)
      × ((r.1.conns 0).queue
          ≡ [] ++ (keeping ∷ []) ++ connack (record Connack.spawn { return_code = 0 }) ∷ [])
      × ((r.1.conns 0).session ≡ some 0)
      × ((r.1.conns 0).connected ≡ true)
      × (r.1.sessions.heap 0 ≡ used_by 0 hello (record idle { offline_queue = [] })))
unfolding group_get lookup new_session mock_connect same
on_connect_resumed_example =
    on_connect_resumed 0 0 hello resting refl refl refl refl (omega arith) refl refl refl

on_connect_new_example :
    (let r = on_connect 0 hello nobody in
      (r.0 ≡ done tt)
      × ((r.1.conns 0).queue ≡ [] ++ connack (record Connack.spawn { return_code = 0 }) ∷ [])
      × ((r.1.conns 0).session ≡ some 1)
      × (group_get name r.1.sessions ≡ some 1)
      × (r.1.sessions.heap 1 ≡ used_by 0 hello (new_session 2)))
unfolding group_get lookup mock_connect same
on_connect_new_example = on_connect_new 0 hello nobody refl refl refl (omega arith) refl refl

close-waits_example :
    (let r = close 1 resting in
      let t = drain_turn 1 r.1 in
      (r.0 ≡ blocked)
      × (r.1.conns 1 ≡ record in_use { once = running; draining = true })
      × (r.1.sessions ≡ resting.sessions)
      × (r.1.topics ≡ new_mem)
      × (t.0 ≡ done tt)
      × ((t.1.conns 1).queue ≡ pingreq Pingreq.spawn ∷ [])
      × ((t.1.sessions.heap 0).offline_queue ≡ (
          if is_of_connection (get_type keeping)
          then keeping ∷ []
          else take 2 ((keeping ∷ []) ++ keeping ∷ []))))
unfolding new_session Bounded
close-waits_example =
    close-waits 1 0 keeping (pingreq Pingreq.spawn ∷ []) resting refl refl refl refl refl refl
      (omega arith)

abbrev tidy : Board (Unit {0})
tidy =
    broker unconnected (record in_use { clean_session = true; subscription = (b't' ∷ [], 0) ∷ [] })
      idle ((name, 0) ∷ [])

close-ends_example :
    (let r = close 1 tidy in
      (r.0 ≡ done tt)
      × (r.1.conns 1 ≡ record (tidy.conns 1) {
        state = State.closed;
        writing = false;
        queue_closed = true;
        session = none;
        once = over;
      })
      × (r.1.sessions.heap 0 ≡ record idle { on_disconnect = none; on_write = none })
      × (group_get name r.1.sessions ≡ none)
      × (r.1.topics ≡ unsubscribe_all tidy.subs ((b't' ∷ [], 0) ∷ []) new_mem))
close-ends_example = close-ends 1 0 tidy refl refl refl refl refl refl

-- Two connections, of which the first has been closed twice.
abbrev listening : MListener
listening = close_conn 0 (close_conn 0 (accept_conn (accept_conn new_listener)))

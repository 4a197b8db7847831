-- ===== src/Server/State.antt =====
-- The state that the connections share, `Board` of blackboard/blackboard.go, and that of each
-- connection, `ConBroker` of server/conBroker.go.
--
-- What is shared by pointer is on a heap: the sessions, with a lock for each mutex `_sync`, the
-- subscriptions, and the connections, which the sessions name by their number. The log, and the
-- identifier, address and times of a connection, which only the log and deadlines of the socket
-- read, are not modelled. A message is a value: the identifier of a publication that several queues
-- share is overwritten by each of them just before it is written.
use magic_mqtt.Prelude.{ℕ, Bool, Option, none, List, [], true, false, ltb}
use magic_mqtt.Packet.Connect.{Will}
use magic_mqtt.Message.{Message}
use magic_mqtt.Topics.Memory.{MemTopics}
use magic_mqtt.Sessions.StringMap.{StringMap}
use magic_mqtt.Sessions.Group.{Group}

-- common/subscription.go
pub record Subscription : Type 0 where
  pub client : List ℕ
  pub topic : List ℕ
  pub qos : ℕ

-- network/connection.go
pub data State : Type 0 where
  init connecting connected accepted idle detached sending receiving shutdown closed : State

abbrev pub is_closed : State → Bool
is_closed closed = true
is_closed _ = false

-- `sync.Once`: its function has not been called, is running, or has returned.
pub data Once : Type 0 where
  fresh running over : Once

-- The settings of blackboard/config.go that the connections read. A number is not negative.
pub record Config : Type 0 where
  pub keepalive : ℕ
  pub offline_queue_size : ℕ
  pub message_queue_size : ℕ
  pub message_size : ℕ

-- auth/auth.go's `Auth`, as far as a connection calls it, and auth/code/error.go. `none` is nil.
pub data AuthError : Type 0 where
  client_not user_name_or_pwd : AuthError

pub record Auth (A : Type 0) : Type 0 where
  pub state : A
  pub connect : List ℕ → List ℕ → List ℕ → A → Option AuthError × A

-- `ConBroker`. `reading` says that the goroutine that reads goes on, `writing` that the one that
-- takes messages from the queue has not ended, `draining` that `Close` waits in its loop over the
-- queue, `kicker` that the timer is not nil; `incoming` and `outgoing` are the bytes still to be
-- read from the socket and those written to it.
pub record Conn : Type 0 where
  pub queue : List Message
  pub capacity : ℕ
  pub queue_closed : Bool
  pub kicker : Bool
  pub keepalive : ℕ
  pub session : Option ℕ
  pub will_msg : Option Will
  pub subscription : StringMap ℕ
  pub connected : Bool
  pub clean_session : Bool
  pub ping : ℕ
  pub state : State
  pub once : Once
  pub reading : Bool
  pub writing : Bool
  pub draining : Bool
  pub incoming : List ℕ
  pub outgoing : List ℕ

pub record Board (A : Type 0) : Type 0 where
  pub deploy : Config
  pub auth : Auth A
  pub sessions : Group ℕ
  pub locked : ℕ → Bool
  pub topics : MemTopics
  pub subs : ℕ → Subscription
  pub next_sub : ℕ
  pub conns : ℕ → Conn
  pub next_conn : ℕ

-- `NewBrokerConn` and `WithConn`, with the bytes that the client is going to send.
unfoldable pub new_broker_conn : Config → List ℕ → Conn
new_broker_conn deploy incoming = record {
  queue = [];
  capacity = deploy.message_queue_size;
  queue_closed = false;
  kicker = ltb 0 deploy.keepalive;
  keepalive = deploy.keepalive;
  session = none;
  will_msg = none;
  subscription = [];
  connected = false;
  clean_session = false;
  ping = 0;
  state = connected;
  once = fresh;
  reading = false;
  writing = false;
  draining = false;
  incoming = incoming;
  outgoing = [];
}

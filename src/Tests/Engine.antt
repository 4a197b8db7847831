-- ===== src/Tests/Engine.antt =====
-- The theorems on core/engine.go and server/tcpBroker.go at a small system.
use magic_mqtt.Prelude.{◌≡◌, ◌↔◌, refl, Bool, true, false, none, some, [], ◌∷◌}
use magic_mqtt.Sessions.Session.{new_session}
use magic_mqtt.Topics.Memory.{new_mem}
use magic_mqtt.Topics.Level.{same}
use magic_mqtt.Auth.New.{auth_db, init, new_auth}
use magic_mqtt.Server.Action.{done, panic}
use magic_mqtt.Server.Serve.{connection, temporary}
use magic_mqtt.Server.Tcp.{
  Net, TcpBroker, new_tcp, returned, listen_and_serve, loop_turn, wait_turn, close_on, Running,
  listening, looped, closed, shutdown_returns,
}
use magic_mqtt.Server.Tcp.Counted.{AllClosed}
use magic_mqtt.Server.Tcp.Stop.{shutdown_returns-AllClosed}
use magic_mqtt.Core.{Settings, Engine, World, System, mem, start, shutdown}
use magic_mqtt.Core.Started.{IsStarted, start-IsStarted}
use magic_mqtt.Core.Shutdown.{shutdown_iff}
use magic_mqtt.Core.Unstarted.{shutdown-start}

-- A net where every address can be listened on, or none.
abbrev net : Bool → Net
net good = record { Addr = Unit {0}; resolve = λ address. none; listen = λ address. good }

abbrev listens : TcpBroker
listens = (listen_and_serve (net true) 1 2 [] new_tcp).1

-- A connection was accepted, and closed again.
abbrev served : TcpBroker
served = close_on 0 (loop_turn (connection []) listens)

served-Running : Running (net true) served
unfolding listen_and_serve loop_turn
served-Running = closed (looped (listening 1 2 [] refl) (connection []) refl refl) 0

shutdown_returns-AllClosed_example :
    (shutdown_returns served ≡ true) ↔ ((served.serving ≡ returned) × AllClosed served)
shutdown_returns-AllClosed_example = shutdown_returns-AllClosed (net true) served served-Running

abbrev settings : Settings
settings = record {
  work_group = 1;
  work_id = 2;
  connections = record {
    keepalive = 60;
    offline_queue_size = 10;
    message_queue_size = 10;
    message_size = 1000;
  };
  buffer_size = 4096;
  auth_db_file = b'd' ∷ [];
  auth_file_name = [];
}

abbrev system : Bool → System (Unit {0}) (Unit {0}) (Unit {0})
system good = record {
  lower = λ text. text;
  spawn_log = λ release path name. true;
  settings = λ content. some settings;
  net = net good;
  files = record {
    read_file = λ path. some path;
    unmarshal = λ content. some tt;
    initial = λ config. some tt;
    new_cache = tt;
    create_table = λ client. some client;
    close_client = λ client. client;
  };
  heap = λ a. new_session 0;
}

abbrev engine : Engine
engine = record {
  file_config = b'c' ∷ [];
  auth_mode = auth_db;
  model = [];
  closed = none;
  broker = none;
  signal_watch = false;
}

abbrev world : World (Unit {0}) (Unit {0})
world = record {
  engine = engine;
  board = record { deploy = none; auth = none; log = false; sessions = none; topics = none };
  providers = (mem, new_mem) ∷ [];
}

start-IsStarted_example : IsStarted (system true) [] world (start (system true) [] world).1
unfolding start new_auth init same listen_and_serve
start-IsStarted_example = start-IsStarted (system true) [] world refl

shutdown-start_example : (shutdown true (λ b. b) (start (system false) [] world).1).0 ≡ panic
unfolding start new_auth init same listen_and_serve
shutdown-start_example = shutdown-start (system false) [] world true (λ b. b) refl

abbrev running : World (Unit {0}) (Unit {0})
running = record world { engine = record engine { broker = some served; signal_watch = true } }

shutdown_iff_example :
    ((shutdown true (λ c. wait_turn (loop_turn temporary c)) running).0 ≡ done tt)
    ↔ AllClosed served
unfolding listen_and_serve loop_turn close_on
shutdown_iff_example =
    shutdown_iff (net true) served temporary running refl served-Running refl refl

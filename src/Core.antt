-- ===== src/Core.antt =====
-- `Engine` of core/engine.go, with the blackboard that it fills.
--
-- Outside, the record `System`: `lower` is strings.ToLower, `spawn_log` says whether the log can be
-- made at a level and a path, `settings` decodes the configuration, `net` is the package net and
-- `files` what the database needs. A text of the log is not modelled. `topics.NewManager` looks the
-- provider up in the map of topics/topics.go, which `providers` is.
pub mod Launch
pub mod Started
pub mod Shutdown
pub mod Unstarted
use magic_mqtt.Prelude.{
  ℕ, ◌≡◌, Bool, true, false, Option, none, some, List, [], ◌∷◌, ◌⊎◌, inl, inr, length, ◌==◌,
  if◌then◌else◌,
}
use magic_mqtt.Topics.Level.{same}
use magic_mqtt.Topics.Memory.{MemTopics}
use magic_mqtt.Topics.Registry.{new_manager}
use magic_mqtt.Sessions.StringMap.{StringMap}
use magic_mqtt.Sessions.Session.{Session}
use magic_mqtt.Sessions.Group.{Group, new_group}
use magic_mqtt.Auth.New.{Files, InitError, Checker, auth_db, auth_file, new_auth}
use magic_mqtt.Server.State.{Config}
use magic_mqtt.Server.Action.{Result, done, panic, blocked}
use magic_mqtt.Server.Tcp.{
  Net, TcpBroker, new_tcp, listen_and_serve, tcp_shutdown, shutdown_returns,
}

-- blackboard/config.go
pub record Settings : Type 0 where
  pub work_group : ℕ
  pub work_id : ℕ
  pub connections : Config
  pub buffer_size : ℕ
  pub auth_db_file : List ℕ
  pub auth_file_name : List ℕ

-- `_closed` is nil, or the channel, and whether it is closed; `signal_watch` says whether it is nil.
pub record Engine : Type 0 where
  pub file_config : List ℕ
  pub auth_mode : List ℕ
  pub model : List ℕ
  pub closed : Option Bool
  pub broker : Option TcpBroker
  pub signal_watch : Bool

-- `Board` of blackboard/blackboard.go; `log` says whether it is nil.
pub record Blackboard (D K : Type 0) : Type 0 where
  pub deploy : Option Settings
  pub auth : Option (Checker D K)
  pub log : Bool
  pub sessions : Option (Group ℕ)
  pub topics : Option MemTopics

pub record World (D K : Type 0) : Type 0 where
  pub engine : Engine
  pub board : Blackboard D K
  pub providers : StringMap MemTopics

pub record System (C D K : Type 0) : Type 1 where
  pub lower : List ℕ → List ℕ
  pub spawn_log : Bool → List ℕ → List ℕ → Bool
  pub settings : List ℕ → Option Settings
  pub net : Net
  pub files : Files C D K
  pub heap : ℕ → Session ℕ

pub data StartError : Type 0 where
  no_log unread wrong_json no_auth_db no_listener : StartError
  no_auth : InitError → StartError

pub data Outcome : Type 0 where
  ok : Outcome
  failed : StartError → Outcome

abbrev pub release : List ℕ
release = b'r' ∷ b'e' ∷ b'l' ∷ b'e' ∷ b'a' ∷ b's' ∷ b'e' ∷ []

abbrev pub log_path : List ℕ
log_path = b'.' ∷ b'/' ∷ b'l' ∷ b'o' ∷ b'g' ∷ []

abbrev pub mqtt : List ℕ
mqtt = b'm' ∷ b'q' ∷ b't' ∷ b't' ∷ []

abbrev pub mem : List ℕ
mem = b'm' ∷ b'e' ∷ b'm' ∷ []

abbrev pub mock_name : List ℕ
mock_name = b'm' ∷ b'o' ∷ b'c' ∷ b'k' ∷ []

module _ {D K : Type 0} where
  abbrev pub set_engine : (Engine → Engine) → World D K → World D K
  set_engine f w = record w { engine = f w.engine }

  abbrev pub set_board : (Blackboard D K → Blackboard D K) → World D K → World D K
  set_board f w = record w { board = f w.board }

  -- The signals are watched once the broker listens.
  abbrev pub watch : World D K → World D K
  watch w = set_engine (λ e. record e { closed = some false; signal_watch = true }) w

  abbrev pub listened : TcpBroker → Bool → World D K → Outcome × World D K
  listened b true w = (ok, watch (set_engine (λ e. record e { broker = some b }) w))
  listened b false w = (failed no_listener, set_engine (λ e. record e { broker = some b }) w)

module _ {C D K : Type 0} (sys : System C D K) (address : List ℕ) where
  -- The end of `Start`: the sessions, the provider of topics and the broker.
  abbrev pub launch : Settings → World D K → Outcome × World D K
  launch cfg w =
      let (good, b) = listen_and_serve sys.net cfg.work_group cfg.work_id address new_tcp in
      listened b good (
        set_board
          (λ v. record v {
            sessions = some (new_group sys.heap 0);
            topics = new_manager mem w.providers;
          })
          w)

  abbrev pub set_auth : Settings → InitError ⊎ Checker D K → World D K → Outcome × World D K
  set_auth cfg (inl e) w = (failed (no_auth e), w)
  set_auth cfg (inr au) w = launch cfg (set_board (λ v. record v { auth = some au }) w)

  -- The switch over the mode, which `Start` has put into lower case. The error of the mock is dropped.
  abbrev pub create_auth : Settings → World D K → Outcome × World D K
  create_auth cfg w =
      if same w.engine.auth_mode auth_db
      then (if length cfg.auth_db_file == 0
          then (failed no_auth_db, w)
          else set_auth cfg (new_auth sys.files auth_db cfg.auth_db_file) w)
      else if same w.engine.auth_mode auth_file
      then launch cfg w
      else set_auth cfg (new_auth sys.files mock_name []) w

  abbrev pub configured : Option Settings → World D K → Outcome × World D K
  configured none w = (failed wrong_json, w)
  configured (some cfg) w = create_auth cfg (
      set_engine (λ e. record e { auth_mode = sys.lower e.auth_mode })
        (set_board (λ v. record v { deploy = some cfg }) w))

  abbrev pub with_content : Option (List ℕ) → World D K → Outcome × World D K
  with_content none w = (failed unread, w)
  with_content (some content) w = configured (sys.settings content) w

  abbrev pub can_log : World D K → Bool
  can_log w =
      if same (sys.lower w.engine.model) release
      then sys.spawn_log true log_path mqtt
      else sys.spawn_log false [] []

  -- `Start`
  unfoldable pub start : World D K → Outcome × World D K
  start w =
      if can_log w
      then with_content (sys.files.read_file w.engine.file_config)
          (set_board (λ v. record v { log = true }) w)
      else (failed no_log, w)

-- `signalClose`; `none` is a panic.
abbrev pub signal_close : Engine → Option Engine
signal_close e = close_it e.closed
  where
    close_it : Option Bool → Option Engine
    close_it none = none
    close_it (some true) = none
    close_it (some false) = some (record e { closed = some true })

-- Whether `Wait` returns.
abbrev pub is_over : Option Bool → Bool
is_over none = true
is_over (some closed) = closed

unfoldable pub wait_returns : Engine → Bool
wait_returns e = is_over e.closed

module _ {D K : Type 0} where
  -- The end of `Shutdown`.
  abbrev pub clear : World D K → World D K
  clear w = set_board (λ v. record v { auth = none; log = false }) w

  -- `signalled` says whether the `Wait` of the signal watch returns.
  abbrev pub stop_watch : Bool → Bool → World D K → Result (Unit {0}) × World D K
  stop_watch signalled false w = (done tt, clear w)
  stop_watch false true w = (blocked, w)
  stop_watch true true w = (done tt, clear (set_engine (λ e. record e { signal_watch = false }) w))

  abbrev pub waited :
      Bool
      → (TcpBroker → TcpBroker)
      → Result (Unit {0}) × TcpBroker
      → World D K
      → Result (Unit {0}) × World D K
  waited signalled run (done u, b) w =
      let w' = set_engine (λ e. record e { broker = some (run b) }) w in
      if shutdown_returns (run b)
      then stop_watch signalled w'.engine.signal_watch
          (set_engine (λ e. record e { broker = none }) w')
      else (blocked, w')
  waited signalled run (panic, b) w = (panic, w)
  waited signalled run (blocked, b) w = (blocked, w)

  abbrev pub stop_broker :
      Bool → (TcpBroker → TcpBroker) → Option TcpBroker → World D K → Result (Unit {0}) × World D K
  stop_broker signalled run none w = stop_watch signalled w.engine.signal_watch w
  stop_broker signalled run (some b) w = waited signalled run (tcp_shutdown b) w

  -- `Shutdown`; `run` is what the goroutine of `Serve` and the connections make of the broker while
  -- `Shutdown` of the broker waits for them.
  unfoldable pub shutdown :
      Bool → (TcpBroker → TcpBroker) → World D K → Result (Unit {0}) × World D K
  shutdown signalled run w = stop_broker signalled run w.engine.broker w

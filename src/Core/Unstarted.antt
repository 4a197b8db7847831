-- ===== src/Core/Unstarted.antt =====
-- `Shutdown` of core/engine.go after a `Start` that could not listen.
use magic_mqtt.Prelude.{
  ℕ, ◌≡◌, refl, ap, Bool, true, false, Bool-cases, Option, none, some, List, [], ◌⊎◌, inl, inr,
  length, ◌==◌, if◌then◌else◌,
}
use magic_mqtt.Topics.Level.{same}
use magic_mqtt.Auth.New.{InitError, Checker, auth_db, auth_file, new_auth}
use magic_mqtt.Server.Action.{panic}
use magic_mqtt.Server.Tcp.{TcpBroker, new_tcp, listen_and_serve, tcp_shutdown}
use magic_mqtt.Core.{
  Settings, World, System, Outcome, failed, no_listener, no_log, no_auth_db, mock_name, set_board,
  launch, set_auth, create_auth, configured, with_content, can_log, start, stop_broker, shutdown,
}

module _ {C D K : Type 0} (sys : System C D K) (address : List ℕ) where
  -- The new broker, of which no channel was made.
  abbrev NotListening : Outcome × World D K → Type 0
  NotListening p = p.0 ≡ failed no_listener → p.1.engine.broker ≡ some new_tcp

  launch-NotListening : (cfg : Settings) (w : World D K) → NotListening (launch sys address cfg w)
  unfolding listen_and_serve
  launch-NotListening cfg w h = elim (Bool-cases (sys.net.listen (sys.net.resolve address))) [
    | inl t ↦ cc (rw t at h)
    | inr t ↦ rw t refl
  ]

  set_auth-NotListening :
      (cfg : Settings) (r : InitError ⊎ Checker D K) (w : World D K)
      → NotListening (set_auth sys address cfg r w)
  set_auth-NotListening cfg (inl e) w h = cc
  set_auth-NotListening cfg (inr au) w h =
      launch-NotListening cfg (set_board (λ v. record v { auth = some au }) w) h

  NotListening-if :
      (t : Bool) (p q : Outcome × World D K)
      → NotListening p
      → NotListening q
      → NotListening (if t then p else q)
  NotListening-if true p q h k = h
  NotListening-if false p q h k = k

  create_auth-NotListening :
      (cfg : Settings) (w : World D K) → NotListening (create_auth sys address cfg w)
  create_auth-NotListening cfg w =
      NotListening-if (same w.engine.auth_mode auth_db) _ _
        (NotListening-if (length cfg.auth_db_file == 0) (failed no_auth_db, w) _ (λ h. cc)
          (set_auth-NotListening cfg (new_auth sys.files auth_db cfg.auth_db_file) w))
        (NotListening-if (same w.engine.auth_mode auth_file) _ _ (launch-NotListening cfg w)
          (set_auth-NotListening cfg (new_auth sys.files mock_name []) w))

  configured-NotListening :
      (o : Option Settings) (w : World D K) → NotListening (configured sys address o w)
  configured-NotListening none w h = cc
  configured-NotListening (some cfg) w h = create_auth-NotListening cfg _ h

  with_content-NotListening :
      (o : Option (List ℕ)) (w : World D K) → NotListening (with_content sys address o w)
  with_content-NotListening none w h = cc
  with_content-NotListening (some content) w h = configured-NotListening (sys.settings content) w h

  start-NotListening : (w : World D K) → NotListening (start sys address w)
  unfolding start
  start-NotListening w =
      NotListening-if (can_log sys address w) _ (failed no_log, w)
        (with_content-NotListening (sys.files.read_file w.engine.file_config) _) (λ h. cc)

  -- Where `Start` fails because the address cannot be listened on, `Shutdown` of the engine panics:
  -- it closes a channel that is nil.
  pub shutdown-start :
      (w : World D K) (signalled : Bool) (run : TcpBroker → TcpBroker)
      → (start sys address w).0 ≡ failed no_listener
      → (shutdown signalled run (start sys address w).1).0 ≡ panic
  unfolding shutdown tcp_shutdown
  shutdown-start w signalled run h =
      ap (λ o. (stop_broker signalled run o (start sys address w).1).0) (start-NotListening w h)

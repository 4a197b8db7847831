-- ===== src/Core/Started.antt =====
-- What `Start` of core/engine.go leaves, where it answers nil.
use magic_mqtt.Prelude.{ℕ, ◌≡◌, refl, Bool, true, false, Option, none, some, List, if◌then◌else◌}
use magic_mqtt.Core.{
  Settings, World, System, ok, failed, no_log, set_board, configured, with_content, can_log, start,
}
use magic_mqtt.Core.Launch.{Launched, HasAuth, create_auth-Created}

module _ {C D K : Type 0} (sys : System C D K) (address : List ℕ) where
  -- The new world of `Start` against the old one.
  pub record IsStarted (w v : World D K) : Type 1 where
    pub content : List ℕ
    pub cfg : Settings
    pub file : sys.files.read_file w.engine.file_config ≡ some content
    pub decoded : sys.settings content ≡ some cfg
    pub launched : Launched sys address cfg w.providers v
    pub deployed : v.board.deploy ≡ some cfg
    pub logging : v.board.log ≡ true
    pub checked : HasAuth sys address (sys.lower w.engine.auth_mode) cfg w.board.auth v.board.auth

  -- Where `Start` answers nil: the configuration file was read and decoded, the board has its
  -- settings, a log, no sessions and the provider of topics that is registered as "mem"; a broker
  -- listens, with the identifiers of the settings, and `Wait` waits. For the mode "authdb", in any
  -- case of letters, `Auth` is the database that `Init` opened, for "authfile" it is left as it was,
  -- and else it is the mock.
  pub start-IsStarted :
      (w : World D K) → (start sys address w).0 ≡ ok → IsStarted w (start sys address w).1
  unfolding start
  start-IsStarted w e = by_log (can_log sys address w) e
    where
      logged : World D K
      logged = set_board (λ v. record v { log = true }) w

      by_settings :
          (content : List ℕ) (o : Option Settings)
          → sys.files.read_file w.engine.file_config ≡ some content
          → sys.settings content ≡ o
          → (configured sys address o logged).0 ≡ ok
          → IsStarted w (configured sys address o logged).1
      by_settings content none f d h = cc
      by_settings content (some cfg) f d h =
          let (l, p, a, g) = create_auth-Created sys address cfg _ h in
          record {
            content = content;
            cfg = cfg;
            file = f;
            decoded = d;
            launched = l;
            deployed = p;
            logging = g;
            checked = a;
          }

      by_file :
          (o : Option (List ℕ))
          → sys.files.read_file w.engine.file_config ≡ o
          → (with_content sys address o logged).0 ≡ ok
          → IsStarted w (with_content sys address o logged).1
      by_file none f h = cc
      by_file (some content) f h = by_settings content (sys.settings content) f refl h

      by_log :
          (t : Bool)
          → (if t
              then with_content sys address (sys.files.read_file w.engine.file_config) logged
              else (failed no_log, w)).0
            ≡ ok
          → IsStarted w
              (if t
                then with_content sys address (sys.files.read_file w.engine.file_config) logged
                else (failed no_log, w)).1
      by_log true h = by_file (sys.files.read_file w.engine.file_config) refl h
      by_log false h = cc

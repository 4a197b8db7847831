-- ===== src/Core/Launch.antt =====
-- What the end of `Start` of core/engine.go leaves: `Auth`, the sessions, the topics and the broker.
use magic_mqtt.Prelude.{
  ℕ, ◌≡◌, ◌≢◌, ◌⊎◌, refl, ap, sym, ◌∙◌, Bool, true, false, Bool-cases, Option, some, List, [], inl,
  inr, length, ◌==◌, if◌then◌else◌,
}
use magic_mqtt.Topics.Level.{same, same_iff}
use magic_mqtt.Topics.Registry.{new_manager}
use magic_mqtt.Sessions.StringMap.{StringMap}
use magic_mqtt.Topics.Memory.{MemTopics}
use magic_mqtt.Sessions.Group.{new_group}
use magic_mqtt.Auth.New.{InitError, Checker, mock, auth_db, auth_file, init, new_auth}
use magic_mqtt.Server.Tcp.{TcpBroker, looping, new_tcp, listen_and_serve, Running, listening}
use magic_mqtt.Core.{
  Settings, World, System, Outcome, ok, failed, no_auth_db, mem, mock_name, set_board, listened,
  launch, set_auth, create_auth, wait_returns,
}

module _ {C D K : Type 0} (sys : System C D K) (address : List ℕ) where
  -- The broker listens with the identifiers of the settings, `Wait` waits, there are no sessions, and
  -- the provider of topics is the one that is registered as "mem".
  pub record Launched (cfg : Settings) (ps : StringMap MemTopics) (v : World D K) : Type 1 where
    pub broker : TcpBroker
    pub is_there : v.engine.broker ≡ some broker
    pub running : Running sys.net broker
    pub loops : broker.serving ≡ looping
    pub unshut : broker.shutdown ≡ some false
    pub identified : broker.sn ≡ some (cfg.work_group, cfg.work_id)
    pub waits : wait_returns v.engine ≡ false
    pub watched : v.engine.signal_watch ≡ true
    pub grouped : v.board.sessions ≡ some (new_group sys.heap 0)
    pub registered : v.board.topics ≡ new_manager mem ps

  -- The board is as it was, but for the sessions and the topics.
  abbrev Kept : (w v : World D K) → Type 0
  Kept w v =
      (v.board.deploy ≡ w.board.deploy)
      × (v.board.auth ≡ w.board.auth)
      × (v.board.log ≡ w.board.log)

  listening_now :
      (g n : ℕ)
      → (listen_and_serve sys.net g n address new_tcp).0 ≡ true
      → let b = (listen_and_serve sys.net g n address new_tcp).1 in
        (b.serving ≡ looping) × (b.shutdown ≡ some false) × (b.sn ≡ some (g, n))
  unfolding listen_and_serve
  listening_now g n e = elim (Bool-cases (sys.net.listen (sys.net.resolve address))) [
    | inl t ↦ rw t (refl, refl, refl)
    | inr t ↦ cc (rw t at e)
  ]

  launch-Launched :
      (cfg : Settings) (w : World D K)
      → (launch sys address cfg w).0 ≡ ok
      → Launched cfg w.providers (launch sys address cfg w).1 × Kept w (launch sys address cfg w).1
  unfolding wait_returns
  launch-Launched cfg w e =
      by_answer (listen_and_serve sys.net cfg.work_group cfg.work_id address new_tcp)
        (λ t.
          let (l, c, n) = listening_now cfg.work_group cfg.work_id t in
          (listening cfg.work_group cfg.work_id address t, l, c, n))
        e
    where
      filled : World D K
      filled =
          set_board
            (λ v. record v {
              sessions = some (new_group sys.heap 0);
              topics = new_manager mem w.providers;
            })
            w

      by_answer :
          (p : Bool × TcpBroker)
          → (p.0 ≡ true
              → Running sys.net p.1
                × (p.1.serving ≡ looping)
                × (p.1.shutdown ≡ some false)
                × (p.1.sn ≡ some (cfg.work_group, cfg.work_id)))
          → (listened p.1 p.0 filled).0 ≡ ok
          → Launched cfg w.providers (listened p.1 p.0 filled).1
            × Kept w (listened p.1 p.0 filled).1
      by_answer (true, b) k h =
          let (r, l, c, n) = k refl in
          (
            record {
              broker = b;
              is_there = refl;
              running = r;
              loops = l;
              unshut = c;
              identified = n;
              waits = refl;
              watched = refl;
              grouped = refl;
              registered = refl;
            },
            (refl, refl, refl),
          )
      by_answer (false, b) k h = cc

  -- The kind of `Auth` for a mode in lower case: in the mode "authfile" it is the one that was there.
  pub data HasAuth (mode : List ℕ) (cfg : Settings) (old new : Option (Checker D K)) : Type 0 where
    opened :
        (au : Checker D K)
        → mode ≡ auth_db
        → init sys.files cfg.auth_db_file ≡ inr au
        → new ≡ some au
        → HasAuth mode cfg old new
    left : mode ≡ auth_file → new ≡ old → HasAuth mode cfg old new
    mocked : mode ≢ auth_db → mode ≢ auth_file → new ≡ some mock → HasAuth mode cfg old new

  set_auth-ok :
      (cfg : Settings) (w : World D K) (r : InitError ⊎ Checker D K)
      → (set_auth sys address cfg r w).0 ≡ ok
      → (au : Checker D K) × ((r ≡ inr au)
          × (Launched cfg w.providers (set_auth sys address cfg r w).1)
          × ((set_auth sys address cfg r w).1.board.deploy ≡ w.board.deploy)
          × ((set_auth sys address cfg r w).1.board.auth ≡ some au)
          × ((set_auth sys address cfg r w).1.board.log ≡ w.board.log))
  set_auth-ok cfg w (inl x) e = cc
  set_auth-ok cfg w (inr au) e =
      let (l, (d, a, g)) = launch-Launched cfg (set_board (λ v. record v { auth = some au }) w) e in
      (au, (refl, l, d, a, g))

  new_auth_db : (conf : List ℕ) → new_auth sys.files auth_db conf ≡ init sys.files conf
  unfolding new_auth same
  new_auth_db conf = refl

  new_auth_mock : new_auth sys.files mock_name [] ≡ inr mock
  unfolding new_auth same
  new_auth_mock = refl

  only_mock : (au : Checker D K) → ◌≡◌ {A = InitError ⊎ Checker D K} (inr mock) (inr au) → au ≡ mock
  only_mock au q = cc q

  -- What `create_auth` leaves.
  abbrev pub Created : (cfg : Settings) (w v : World D K) → Type 1
  Created cfg w v =
      Launched cfg w.providers v
      × (v.board.deploy ≡ w.board.deploy)
      × HasAuth w.engine.auth_mode cfg w.board.auth v.board.auth
      × (v.board.log ≡ w.board.log)

  pub create_auth-Created :
      (cfg : Settings) (w : World D K)
      → (create_auth sys address cfg w).0 ≡ ok
      → Created cfg w (create_auth sys address cfg w).1
  create_auth-Created cfg w e = by_db (same w.engine.auth_mode auth_db) refl e
    where
      with_db : Outcome × World D K
      with_db =
          if length cfg.auth_db_file == 0
          then (failed no_auth_db, w)
          else set_auth sys address cfg (new_auth sys.files auth_db cfg.auth_db_file) w

      db-Created : same w.engine.auth_mode auth_db ≡ true → with_db.0 ≡ ok → Created cfg w with_db.1
      db-Created t h = elim (Bool-cases (length cfg.auth_db_file == 0)) [
        | inl z ↦ cc (rw z at h)
        | inr z ↦
            let (au, (q, l, d, a, g)) = set_auth-ok cfg w _ (rw z at h) in
            rw z (
              l,
              d,
              opened au ((same_iff w.engine.auth_mode auth_db).0 t)
                  (sym (new_auth_db cfg.auth_db_file) ∙ q) a,
              g,
            )
      ]

      without_db : Outcome × World D K
      without_db =
          if same w.engine.auth_mode auth_file
          then launch sys address cfg w
          else set_auth sys address cfg (new_auth sys.files mock_name []) w

      other-Created :
          same w.engine.auth_mode auth_db ≡ false → without_db.0 ≡ ok → Created cfg w without_db.1
      other-Created t h = elim (Bool-cases (same w.engine.auth_mode auth_file)) [
        | inl z ↦
            let (l, (d, a, g)) = launch-Launched cfg w (rw z at h) in
            rw z (l, d, left ((same_iff w.engine.auth_mode auth_file).0 z) a, g)
        | inr z ↦
            let (au, (q, l, d, a, g)) = set_auth-ok cfg w _ (rw z at h) in
            rw z (
              l,
              d,
              mocked (λ m. cc ((same_iff w.engine.auth_mode auth_db).1 m))
                  (λ m. cc ((same_iff w.engine.auth_mode auth_file).1 m))
                  (a ∙ ap some (only_mock au (sym new_auth_mock ∙ q))),
              g,
            )
      ]

      by_db :
          (t : Bool)
          → same w.engine.auth_mode auth_db ≡ t
          → (if t then with_db else without_db).0 ≡ ok
          → Created cfg w (if t then with_db else without_db).1
      by_db true t h = db-Created t h
      by_db false t h = other-Created t h

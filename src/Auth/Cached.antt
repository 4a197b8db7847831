-- ===== src/Auth/Cached.antt =====
-- Which clients `Connect` of auth/authdb/authMysql.go lets in, and what its cache does to that.
use magic_mqtt.Prelude.{
  ℕ, ◌≡◌, ◌↔◌, ◌⊎◌, inl, inr, refl, ap, subst, ◌∙◌, true, Bool-cases, Option, none, some, List, [],
  arith,
}
use magic_mqtt.Topics.Level.{same, same_iff, same_refl}
use magic_mqtt.Auth.{
  AuthUser, AuthCache, Outside, action_connect, is_hit, checked_user, mysql_connect,
}

module _ {D K : Type 0} (o : Outside D K) where
  -- A user of the database with a name and a password, whatever the client id.
  pub record Known (d : D) (username password : List ℕ) : Type 0 where
    pub id : List ℕ
    pub user : AuthUser
    pub found : o.find id d ≡ some user
    pub named : user.user_name ≡ username
    pub secret : user.password ≡ password

  -- Each entry of the cache has the name that it is under, and a user's name and password.
  abbrev pub IsFromTable : D → K → Type 0
  IsFromTable d k =
      (name : List ℕ) (e : AuthCache)
      → o.get name k ≡ some e
      → (e.username ≡ name) × Known d name e.password

  -- An entry that a cache has is the last one that was set, under the same name.
  pub record IsCache : Type 0 where
    pub get-set :
        (name other : List ℕ) (e f : AuthCache) (k : K)
        → o.get other (o.set name e k) ≡ some f
        → ((name ≡ other) × (f ≡ e)) ⊎ (o.get other k ≡ some f)

  is_hit-true :
      (username password : List ℕ) (e : Option AuthCache)
      → is_hit o action_connect username password e ≡ true
      → (c : AuthCache) × ((e ≡ some c) × (c.password ≡ password) × (c.username ≡ username))
  is_hit-true username password none h = cc
  is_hit-true username password (some c) h = (
    c,
    (
      refl,
      ground (arith, same_iff c.password password),
      ground (arith, same_iff c.username username),
    ),
  )

  -- The user that the query gives passes the test.
  IsUser : List ℕ → List ℕ → Option AuthUser → Type 0
  IsUser username password q =
      (u : AuthUser) × ((q ≡ some u) × (u.user_name ≡ username) × (u.password ≡ password))

  abbrev entry : List ℕ → List ℕ → List ℕ → AuthCache
  entry client_id username password = record {
    action = action_connect;
    username = username;
    client_id = client_id;
    password = password;
    topic = [];
  }

  checked_user-IsUser :
      (client_id username password : List ℕ) (k : K) (q : Option AuthUser)
      → (checked_user o client_id username password k q).0.1 ≡ none
      → IsUser username password q
        × (checked_user o client_id username password k q
            ≡ ((true, none), o.set username (entry client_id username password) k))
  unfolding IsUser
  checked_user-IsUser client_id username password k none h = cc
  checked_user-IsUser client_id username password k (some u) h =
      elim (Bool-cases (same u.user_name username)) [
        | inr n ↦ cc (rw n at h)
        | inl n ↦ elim (Bool-cases (same u.password password)) [
          | inr p ↦ cc (rw (n, p) at h)
          | inl p ↦ (
            (u, (refl, (same_iff u.user_name username).0 n, (same_iff u.password password).0 p)),
            rw (n, p) refl,
          )
        ]
      ]

  IsUser-checked_user :
      (client_id username password : List ℕ) (k : K) (q : Option AuthUser)
      → IsUser username password q
      → (checked_user o client_id username password k q).0.1 ≡ none
  unfolding IsUser
  IsUser-checked_user client_id username password k q (u, (e, n, p)) =
      rw (e, (same_iff u.user_name username).1 n, (same_iff u.password password).1 p) refl

  -- `Connect` returns no error, where the cache has no entry for the name, exactly for the name and
  -- the password of the user with the client id.
  pub mysql_connect_iff :
      (client_id username password : List ℕ) (d : D) (k : K)
      → o.get username k ≡ none
      → ((mysql_connect o client_id username password d k).0.1 ≡ none) ↔ (
          (u : AuthUser) × ((o.find client_id d ≡ some u)
            × (u.user_name ≡ username)
            × (u.password ≡ password)))
  unfolding mysql_connect IsUser
  mysql_connect_iff client_id username password d k h = rw h (
    λ e. (checked_user-IsUser client_id username password k (o.find client_id d) e).0,
    λ u. IsUser-checked_user client_id username password k (o.find client_id d) u,
  )

  -- `Connect` with a cache whose entries all have a user's name and password lets in only a name and
  -- a password that some user of the database has, and such a cache stays one.
  pub mysql_connect-Known :
      (client_id username password : List ℕ) (d : D) (k : K)
      → IsCache
      → IsFromTable d k
      → (mysql_connect o client_id username password d k).0.1 ≡ none
      → Known d username password
        × IsFromTable d (mysql_connect o client_id username password d k).1
  unfolding mysql_connect IsUser
  mysql_connect-Known client_id username password d k cache table h =
      elim (Bool-cases (is_hit o action_connect username password (o.get username k))) [
        | inl t ↦
            let (c, (e, p, n)) = is_hit-true username password (o.get username k) t in
            rw t (subst (Known d username) p (table username c e).1, table)
        | inr t ↦
            let ((u, (e, n, p)), same) =
              checked_user-IsUser client_id username password k (o.find client_id d) (rw t at h) in
            let known : Known d username password = record {
              id = client_id;
              user = u;
              found = e;
              named = n;
              secret = p;
            } in
            rw (t, same)
              (
                known,
                λ name f g.
                    elim (cache.get-set username name (entry client_id username password) f k g) [
                      | inl (r, s) ↦ (
                        ap (λ (c : AuthCache). c.username) s ∙ r,
                        rw s (subst (λ x. Known d x password) r known),
                      )
                      | inr g' ↦ table name f g'
                    ],
              )
      ]

  -- Behind a `Connect` that the database has let in, and as long as the entry that it set is in the
  -- cache, the same name and password are let in with any client id, whatever the database has then.
  pub mysql_connect_any :
      (client_id other username password : List ℕ) (d d' : D) (k : K)
      → o.get username k ≡ none
      → (mysql_connect o client_id username password d k).0.1 ≡ none
      → ((e : AuthCache) → o.get username (o.set username e k) ≡ some e)
      → (let k' = (mysql_connect o client_id username password d k).1 in
          mysql_connect o other username password d' k' ≡ ((true, none), k'))
  unfolding mysql_connect
  mysql_connect_any client_id other username password d d' k h e there =
      let (u, same) =
        checked_user-IsUser client_id username password k (o.find client_id d) (rw h at e) in
      rw (h, same, there, same_refl password, same_refl username, same_refl action_connect) refl

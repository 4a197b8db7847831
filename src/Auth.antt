-- ===== src/Auth.antt =====
-- auth/: the two kinds of `Auth` that the broker can be started with. Strings are lists of bytes.
--
-- The database and the cache are packages outside the repository, and parameters: `find` is the
-- query for the first user with a client id, `none` for its error; `get` and `set` are those of the
-- cache, of which an entry may be gone at any time.
pub mod Cached
pub mod New
use magic_mqtt.Prelude.{
  ℕ, Bool, true, false, ◌&&◌, not, ◌||◌, Option, none, some, List, [], ◌∷◌, if◌then◌else◌,
}
use magic_mqtt.Topics.Level.{same}
use magic_mqtt.Server.State.{Auth, AuthError, client_not, user_name_or_pwd}

-- auth/authdb/authTable.go, without the times of a row.
pub record AuthUser : Type 0 where
  pub client_id : List ℕ
  pub user_name : List ℕ
  pub password : List ℕ

-- auth/authdb/cache.go
pub record AuthCache : Type 0 where
  pub action : List ℕ
  pub username : List ℕ
  pub client_id : List ℕ
  pub password : List ℕ
  pub topic : List ℕ

-- What is outside: a database and a cache, with their states.
pub record Outside (D K : Type 0) : Type 0 where
  pub find : List ℕ → D → Option AuthUser
  pub get : List ℕ → K → Option AuthCache
  pub set : List ℕ → AuthCache → K → K

abbrev pub action_connect : List ℕ
action_connect = b'c' ∷ b'o' ∷ b'n' ∷ b'n' ∷ b'e' ∷ b'c' ∷ b't' ∷ []

-- `Mock` of auth/mock.go
unfoldable pub mock_connect : List ℕ → List ℕ → List ℕ → Bool × Option AuthError
mock_connect client_id username password = (true, none)

module _ {D K : Type 0} (o : Outside D K) where
  -- `doAuthCache` and `addAuthCache`
  abbrev pub do_auth_cache : List ℕ → List ℕ → List ℕ → List ℕ → List ℕ → K → Option AuthCache
  do_auth_cache action client_id username password topic k = o.get username k

  abbrev pub add_auth_cache : List ℕ → List ℕ → List ℕ → List ℕ → List ℕ → K → K
  add_auth_cache action client_id username password topic k =
      o.set username
        (record {
          action = action;
          username = username;
          client_id = client_id;
          password = password;
          topic = topic;
        })
        k

  -- The test on an entry of the cache; `none` is nil.
  abbrev pub is_hit : List ℕ → List ℕ → List ℕ → Option AuthCache → Bool
  is_hit action username password none = false
  is_hit action username password (some e) =
      same e.password password && same e.username username && same e.action action

  -- The answer for the user of the query, with the cache behind it.
  abbrev pub checked_user :
      List ℕ → List ℕ → List ℕ → K → Option AuthUser → (Bool × Option AuthError) × K
  checked_user client_id username password k none = ((false, some client_not), k)
  checked_user client_id username password k (some u) =
      if not (same u.user_name username) || not (same u.password password)
      then ((false, some user_name_or_pwd), k)
      else ((true, none), add_auth_cache action_connect client_id username password [] k)

  -- `AuthMYSQL.Connect`
  unfoldable pub mysql_connect : List ℕ → List ℕ → List ℕ → D → K → (Bool × Option AuthError) × K
  mysql_connect client_id username password d k =
      if is_hit action_connect username password
        (do_auth_cache action_connect client_id username password [] k)
      then ((true, none), k)
      else checked_user client_id username password k (o.find client_id d)

  -- What a connection calls: it drops the first result.
  abbrev pub mysql_auth : D → K → Auth (D × K)
  mysql_auth d k = record {
    state = (d, k);
    connect = λ client_id username password s.
        let (r, k') = mysql_connect client_id username password s.0 s.1 in (r.1, (s.0, k'));
  }

abbrev pub mock_auth : Auth (Unit {0})
mock_auth = record {
  state = tt;
  connect = λ client_id username password s. ((mock_connect client_id username password).1, s);
}

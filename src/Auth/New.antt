-- ===== src/Auth/New.antt =====
-- `New` of auth/auth.go, `Init` of auth/authdb/authMysql.go and `Setup` of auth/authdb/authSetup.go;
-- and `ACL` of both kinds of `Auth`.
--
-- What they use of other packages is a parameter, the record `Files`: reading a file, the decoding
-- of the settings `C` of a database, opening the database `D` with them, the empty cache, and the
-- creation of the table. `none` stands for an error.
use magic_mqtt.Prelude.{
  ℕ, Bool, true, Option, none, some, List, [], ◌∷◌, ◌⊎◌, inl, inr, if◌then◌else◌,
}
use magic_mqtt.Topics.Level.{same}
use magic_mqtt.Server.State.{AuthError}
use magic_mqtt.Auth.{Outside, mock_connect, mysql_connect}

pub record Files (C D K : Type 0) : Type 0 where
  pub read_file : List ℕ → Option (List ℕ)
  pub unmarshal : List ℕ → Option C
  pub initial : C → Option D
  pub new_cache : K
  pub create_table : D → Option D
  pub close_client : D → D

pub data InitError : Type 0 where
  unread wrong_json not_opened : InitError

-- The constants of auth/auth.go
abbrev pub auth_db : List ℕ
auth_db = b'a' ∷ b'u' ∷ b't' ∷ b'h' ∷ b'd' ∷ b'b' ∷ []

abbrev pub auth_file : List ℕ
auth_file = b'a' ∷ b'u' ∷ b't' ∷ b'h' ∷ b'f' ∷ b'i' ∷ b'l' ∷ b'e' ∷ []

-- The values of the interface `Auth`.
pub data Checker (D K : Type 0) : Type 0 where
  mock : Checker D K
  mysql : D → K → Checker D K

-- What `Setup` prints.
pub data Printed : Type 0 where
  failure : InitError → Printed
  table_error complete : Printed

module _ {C D K : Type 0} (f : Files C D K) where
  abbrev pub open_client : Option C → InitError ⊎ D
  open_client none = inl wrong_json
  open_client (some config) = from_initial (f.initial config)
    where
      from_initial : Option D → InitError ⊎ D
      from_initial none = inl not_opened
      from_initial (some client) = inr client

  -- The lines that `Init` and `Setup` have in common.
  abbrev pub connect_with : Option (List ℕ) → InitError ⊎ D
  connect_with none = inl unread
  connect_with (some content) = open_client (f.unmarshal content)

  abbrev pub with_cache : InitError ⊎ D → InitError ⊎ Checker D K
  with_cache (inl e) = inl e
  with_cache (inr client) = inr (mysql client f.new_cache)

  -- `Init`
  unfoldable pub init : List ℕ → InitError ⊎ Checker D K
  init config_file = with_cache (connect_with (f.read_file config_file))

  -- `New`
  unfoldable pub new_auth : List ℕ → List ℕ → InitError ⊎ Checker D K
  new_auth name conf = if same name auth_db then init conf else inr mock

  abbrev pub create : InitError ⊎ D → Printed × Option D
  create (inl e) = (failure e, none)
  create (inr client) = from_table (f.create_table client)
    where
      from_table : Option D → Printed × Option D
      from_table none = (table_error, some client)
      from_table (some client') = (complete, some (f.close_client client'))

  -- `Setup`, and the database, if it was opened. Where the table cannot be created, it is left open.
  unfoldable pub setup : List ℕ → Printed × Option D
  setup config_file = create (connect_with (f.read_file config_file))

module _ {D K : Type 0} (o : Outside D K) where
  abbrev pub kept_checker :
      D → (Bool × Option AuthError) × K → (Bool × Option AuthError) × Checker D K
  kept_checker d (answer, k) = (answer, mysql d k)

  -- `Connect` of the interface.
  abbrev pub checker_connect :
      List ℕ → List ℕ → List ℕ → Checker D K → (Bool × Option AuthError) × Checker D K
  checker_connect client_id username password mock =
      (mock_connect client_id username password, mock)
  checker_connect client_id username password (mysql d k) =
      kept_checker d (mysql_connect o client_id username password d k)

-- `ACL` of the interface: both kinds allow everything.
abbrev pub acl :
    {D K : Type 0}
    → Checker D K
    → List ℕ
    → List ℕ
    → List ℕ
    → List ℕ
    → List ℕ
    → Bool × Option AuthError
acl mock action client_id username ip topic = (true, none)
acl (mysql d k) action client_id username ip topic = (true, none)

-- ===== src/Tests/Auth.antt =====
-- The theorems on auth/authdb at a database of one user and a cache that forgets nothing.
use magic_mqtt.Prelude.{
  ℕ, ◌≡◌, inl, inr, refl, true, Bool-cases, Option, none, some, List, [], ◌∷◌, if◌then◌else◌,
}
use magic_mqtt.Topics.Level.{same, same_iff}
use magic_mqtt.Auth.{AuthUser, AuthCache, Outside, mysql_connect}
use magic_mqtt.Auth.Cached.{Known, IsFromTable, IsCache, mysql_connect-Known, mysql_connect_any}

abbrev user : AuthUser
user = record { client_id = b'c' ∷ []; user_name = b'u' ∷ []; password = b'p' ∷ [] }

-- The database is the user; the cache is a function.
abbrev outside : Outside AuthUser (List ℕ → Option AuthCache)
outside = record {
  find = λ id u. if same u.client_id id then some u else none;
  get = λ key k. k key;
  set = λ key e k. λ other. if same key other then some e else k other;
}

outside-IsCache : IsCache outside
outside-IsCache = record {
  get-set = λ key other e f k h. elim (Bool-cases (same key other)) [
    | inl t ↦ inl ((same_iff key other).0 t, cc (rw t at h))
    | inr t ↦ inr (rw t at h)
  ];
}

mysql_connect-Known_example :
    Known outside user (b'u' ∷ []) (b'p' ∷ [])
    × IsFromTable outside user
        (mysql_connect outside (b'c' ∷ []) (b'u' ∷ []) (b'p' ∷ []) user (λ key. none)).1
unfolding mysql_connect same
mysql_connect-Known_example =
    mysql_connect-Known outside (b'c' ∷ []) (b'u' ∷ []) (b'p' ∷ []) user (λ key. none)
      outside-IsCache (λ key e h. cc) refl

mysql_connect_any_example :
    (let k' = (mysql_connect outside (b'c' ∷ []) (b'u' ∷ []) (b'p' ∷ []) user (λ key. none)).1 in
      mysql_connect outside (b'x' ∷ []) (b'u' ∷ []) (b'p' ∷ []) user k' ≡ ((true, none), k'))
unfolding mysql_connect same
mysql_connect_any_example =
    mysql_connect_any outside (b'c' ∷ []) (b'x' ∷ []) (b'u' ∷ []) (b'p' ∷ []) user user
      (λ key. none) refl refl (λ e. refl)

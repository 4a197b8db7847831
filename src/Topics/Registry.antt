-- ===== src/Topics/Registry.antt =====
-- The providers of topics/topics.go by name, and `NewManager`. The map is shared; each function is
-- one step. A provider is the value of a type that is a parameter.
use magic_mqtt.Prelude.{ℕ, ◌≡◌, ◌≢◌, refl, Option, none, some, List, if◌then◌else◌}
use magic_mqtt.Topics.Level.{same, same_iff}
use magic_mqtt.Sessions.StringMap.{StringMap, lookup, store, delete, lookup-store, lookup-delete}

module _ {P : Type 0} where
  abbrev pub register_new : Option P → List ℕ → P → StringMap P → Option (StringMap P)
  register_new none name p providers = some (store providers name p)
  register_new (some old) name p providers = none

  -- `Register`; `none` is a panic.
  unfoldable pub register_provider : List ℕ → Option P → StringMap P → Option (StringMap P)
  register_provider name none providers = none
  register_provider name (some p) providers = register_new (lookup providers name) name p providers

  -- `Unregister`
  unfoldable pub unregister_provider : List ℕ → StringMap P → StringMap P
  unregister_provider name providers = delete providers name

  -- `NewManager`: the provider of the manager; `none` is its error.
  unfoldable pub new_manager : List ℕ → StringMap P → Option P
  new_manager name providers = lookup providers name

  -- `Register` of a name that is free stores the provider, and `NewManager` finds it then.
  pub new_manager-register_provider :
      (name other : List ℕ) (p : P) (providers : StringMap P)
      → new_manager name providers ≡ none
      → (register_provider name (some p) providers ≡ some (store providers name p))
        × (new_manager other (store providers name p)
            ≡ (if same name other then some p else new_manager other providers))
  unfolding new_manager register_provider
  new_manager-register_provider name other p providers e = (rw e refl, rw lookup-store refl)

  -- A name that is taken panics, and one that was taken out does not.
  pub register_provider-taken :
      (name : List ℕ) (p q : P) (providers : StringMap P)
      → new_manager name providers ≡ some q
      → (register_provider name (some p) providers ≡ none)
        × (register_provider name (some p) (unregister_provider name providers) ≢ none)
  unfolding new_manager register_provider unregister_provider
  register_provider-taken name p q providers e =
      (rw e refl, rw (lookup-delete, (same_iff name name).1 refl) (λ h. cc))

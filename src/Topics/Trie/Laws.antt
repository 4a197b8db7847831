-- ===== src/Topics/Trie/Laws.antt =====
-- The laws of the map of a node.
use magic_mqtt.Prelude.{◌≡◌, refl, none, some, if◌then◌else◌, arith}
use magic_mqtt.Topics.Level.{Level, same, same_iff}
use magic_mqtt.Topics.Trie.{Trie, Nodes, nil, entry, get, put, remove}

module _ {ℓ} {A : Type ℓ} where
  pub get-put :
      (ns : Nodes A) (l k : Level) (t : Trie A)
      → get (put ns l t) k ≡ (if same l k then some t else get ns k)
  unfolding get put
  get-put nil l k t = refl
  get-put (entry j n ns) l k t =
      ground (arith, get-put ns l k t, same_iff j l, same_iff j k, same_iff l k)

  pub get-remove :
      (ns : Nodes A) (l k : Level) → get (remove ns l) k ≡ (if same l k then none else get ns k)
  unfolding get remove
  get-remove nil l k = ground arith
  get-remove (entry j n ns) l k =
      ground (arith, get-remove ns l k, same_iff j l, same_iff j k, same_iff l k)

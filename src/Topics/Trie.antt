-- ===== src/Topics/Trie.antt =====
-- The shape that `snode` and `rnode` of topics/memtopics.go share: a value of the node, and a map
-- from level names to nodes. The map is a list of its entries, in the order of a walk over it.
pub mod Laws
pub mod Distinct
use magic_mqtt.Prelude.{ℕ, Bool, true, false, Option, none, some, List, [], ◌∷◌, if◌then◌else◌}
use magic_mqtt.Topics.Level.{Level, same}

mutual
  pub data Trie {ℓ} (A : Type ℓ) : Type ℓ where
    node : A → Nodes A → Trie A

  pub data Nodes {ℓ} (A : Type ℓ) : Type ℓ where
    nil : Nodes A
    entry : Level → Trie A → Nodes A → Nodes A

module _ {ℓ} {A : Type ℓ} where
  abbrev pub value : Trie A → A
  value (node a ns) = a

  abbrev pub nodes : Trie A → Nodes A
  nodes (node a ns) = ns

  -- `n, ok := nodes[level]`
  unfoldable pub get : Nodes A → Level → Option (Trie A)
  get nil l = none
  get (entry k n ns) l = if same k l then some n else get ns l

  -- `nodes[level] = n`
  unfoldable pub put : Nodes A → Level → Trie A → Nodes A
  put nil l t = entry l t nil
  put (entry k n ns) l t = if same k l then entry k t ns else entry k n (put ns l t)

  -- `delete(nodes, level)`
  unfoldable pub remove : Nodes A → Level → Nodes A
  remove nil l = nil
  remove (entry k n ns) l = let rest = remove ns l in if same k l then rest else entry k n rest

  -- `len(nodes) == 0`
  abbrev pub is_empty : Nodes A → Bool
  is_empty nil = true
  is_empty (entry k n ns) = false

  -- The node at the end of a path of levels.
  unfoldable pub find : Trie A → List Level → Option (Trie A)
  find t [] = some t
  find t (l ∷ ls) = elim (get (nodes t) l) [ none ↦ none | some n ↦ find n ls ]

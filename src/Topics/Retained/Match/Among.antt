-- ===== src/Topics/Retained/Match/Among.antt =====
-- The messages that a walk over the nodes of a map gives, in topics/memtopics.go.
use magic_mqtt.Prelude.{
  ◌≡◌, ◌⊎◌, refl, Bool-cases, inl, inr, Option, none, some, List, [], ◌∷◌, ◌++◌, arith,
}
use magic_mqtt.Packet.Publish.{Publish}
use magic_mqtt.Topics.Level.{Level, same, same_iff, same_refl}
use magic_mqtt.Topics.Trie.{Nodes, nil, entry, get}
use magic_mqtt.Topics.Trie.Distinct.{AreDistinct, at_nil, at_entry}
use magic_mqtt.Topics.Retained.{RNode}
use magic_mqtt.Topics.Retained.Match.{held, walk}

-- A message is among some.
abbrev pub Among : Publish → List Publish → Type 0
Among m [] = ⊥
Among m (x ∷ xs) = (x ≡ m) ⊎ Among m xs

pub Among-append_left : (m : Publish) (xs ys : List Publish) → Among m xs → Among m (xs ++ ys)
Among-append_left m [] ys h = absurd h
Among-append_left m (x ∷ xs) ys (inl e) = inl e
Among-append_left m (x ∷ xs) ys (inr h) = inr (Among-append_left m xs ys h)

pub Among-append_right : (m : Publish) (xs ys : List Publish) → Among m ys → Among m (xs ++ ys)
Among-append_right m [] ys h = h
Among-append_right m (x ∷ xs) ys h = inr (Among-append_right m xs ys h)

pub Among-append :
    (m : Publish) (xs ys : List Publish) → Among m (xs ++ ys) → Among m xs ⊎ Among m ys
Among-append m [] ys h = inr h
Among-append m (x ∷ xs) ys (inl e) = inl (inl e)
Among-append m (x ∷ xs) ys (inr h) = elim (Among-append m xs ys h) [
  | inl k ↦ inl (inr k)
  | inr k ↦ inr k
]

pub Among-held : (m : Publish) (o : Option Publish) → Among m (held o) → o ≡ some m
Among-held m none h = absurd h
Among-held m (some x) (inl e) = rw e
Among-held m (some x) (inr h) = absurd h

pub held-Among : (m : Publish) (o : Option Publish) → o ≡ some m → Among m (held o)
held-Among m o e = rw e (inl refl)

module _ (m : Publish) (f : RNode → List Publish) where
  pub walk-get :
      (kids : Nodes (Option Publish)) (k : Level) (n : RNode)
      → get kids k ≡ some n
      → Among m (f n)
      → Among m (walk f kids)
  unfolding walk get
  walk-get nil k n e h = cc
  walk-get (entry j x rest) k n e h = elim (Bool-cases (same j k)) [
    | inl p ↦
        let q : some x ≡ some n = rw p at e in
        let r : x ≡ n = cc q in Among-append_left m (f x) (walk f rest) (rw r h)
    | inr p ↦ Among-append_right m (f x) (walk f rest) (walk-get rest k n (rw p at e) h)
  ]

  -- A message of a walk comes from a node that the map holds.
  pub record Source (kids : Nodes (Option Publish)) : Type 0 where
    pub key : Level
    pub child : RNode
    pub at_key : get kids key ≡ some child
    pub gives : Among m (f child)

  pub get-walk :
      {kids : Nodes (Option Publish)} → AreDistinct kids → Among m (walk f kids) → Source kids
  unfolding walk get
  get-walk at_nil h = absurd h
  get-walk (at_entry k n rest g d ds) h = elim (Among-append m (f n) (walk f rest) h) [
    | inl x ↦ record { key = k; child = n; at_key = rw (same_refl k); gives = x }
    | inr x ↦ later (get-walk ds x)
  ]
    where
      later : Source rest → Source (entry k n rest)
      later s = record {
        key = s.key;
        child = s.child;
        at_key = ground (arith, s.at_key, g, same_iff k s.key);
        gives = s.gives;
      }

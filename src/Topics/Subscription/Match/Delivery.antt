-- ===== src/Topics/Subscription/Match/Delivery.antt =====
-- Topic filters and the topics they match, against the walk of `smatch` of topics/memtopics.go.
use magic_mqtt.Prelude.{
  ◌≡◌, ◌≢◌, ◌⊎◌, refl, sym, Bool-cases, Option-cases, ◌∙◌, inl, inr, ◌||◌, Option, none, some, List,
  [], ◌∷◌, ◌++◌, if◌then◌else◌, arith,
}
use mathlib.Core.Path.{subst}
use magic_mqtt.Topics.Level.{Level, same, same_iff, same_refl, mwc, swc}
use magic_mqtt.Topics.Trie.{Nodes, node, nil, entry, get}
use magic_mqtt.Topics.Trie.Distinct.{
  IsDistinct, AreDistinct, at_node, at_nil, at_entry, get-IsDistinct,
}
use magic_mqtt.Topics.Value.{Value}
use magic_mqtt.Topics.Subscription.{SNode, Subs, subs_of, child_or_new}
use magic_mqtt.Topics.Subscription.Table.{subs_at, subs_at_leaf, subs_at_cons, subs_at_new}
use magic_mqtt.Topics.Subscription.Match.{over_nodes, delivered}

-- MQTT's rule: `#` matches whatever is left, nothing too; `+` matches any one level; any other
-- level matches itself.
pub data Matches : List Level → List Level → Type 0 where
  here : Matches [] []
  multi : (ls : List Level) → Matches (mwc ∷ []) ls
  single : (l : Level) {f ls : List Level} → Matches f ls → Matches (swc ∷ f) (l ∷ ls)
  exact : (l : Level) {f ls : List Level} → l ≢ mwc → Matches f ls → Matches (l ∷ f) (l ∷ ls)

-- A subscriber is among some pairs.
abbrev pub Has : Value → Subs → Type 0
Has v [] = ⊥
Has v ((s, q) ∷ rest) = (s ≡ v) ⊎ Has v rest

Has-append_left : (v : Value) (xs ys : Subs) → Has v xs → Has v (xs ++ ys)
Has-append_left v [] ys h = absurd h
Has-append_left v ((s, q) ∷ xs) ys (inl e) = inl e
Has-append_left v ((s, q) ∷ xs) ys (inr h) = inr (Has-append_left v xs ys h)

Has-append_right : (v : Value) (xs ys : Subs) → Has v ys → Has v (xs ++ ys)
Has-append_right v [] ys h = h
Has-append_right v ((s, q) ∷ xs) ys h = inr (Has-append_right v xs ys h)

Has-append : (v : Value) (xs ys : Subs) → Has v (xs ++ ys) → Has v xs ⊎ Has v ys
Has-append v [] ys h = inr h
Has-append v ((s, q) ∷ xs) ys (inl e) = inl (inl e)
Has-append v ((s, q) ∷ xs) ys (inr h) = elim (Has-append v xs ys h) [
  | inl k ↦ inl (inr k)
  | inr k ↦ inr k
]

-- What the walk takes from the node under a key.
unfoldable pub taken : (SNode → Subs) → Level → Level → SNode → Subs
taken call level k n =
    if same k mwc then subs_of (some n) else if same k swc || same k level then call n else []

taken-mwc :
    (call : SNode → Subs) (level : Level) (n : SNode) → taken call level mwc n ≡ subs_of (some n)
unfolding taken same
taken-mwc call level n = refl

taken_call :
    (call : SNode → Subs) (level k : Level) (n : SNode)
    → k ≢ mwc
    → (k ≡ swc) ⊎ (k ≡ level)
    → taken call level k n ≡ call n
unfolding taken
taken_call call level k n h e = ground (arith, same_iff k mwc, same_iff k swc, same_iff k level)

-- A node whose key is neither `#` nor `+` nor the level gives nothing.
taken_cases :
    (v : Value) (call : SNode → Subs) (level k : Level) (n : SNode)
    → Has v (taken call level k n)
    → (k ≡ mwc) ⊎ ((k ≢ mwc) × ((k ≡ swc) ⊎ (k ≡ level)))
unfolding taken
taken_cases v call level k n h = elim (Bool-cases (same k mwc)) [
  | inl p ↦ inl ((same_iff k mwc).0 p)
  | inr p ↦
      let far : k ≢ mwc = λ e. cc ((same_iff k mwc).1 e) in
      elim (Bool-cases (same k swc)) [
        | inl q ↦ inr (far, inl ((same_iff k swc).0 q))
        | inr q ↦ elim (Bool-cases (same k level)) [
          | inl r ↦ inr (far, inr ((same_iff k level).0 r))
          | inr r ↦ absurd (rw (p, q, r) at h)
        ]
      ]
]

module _ (v : Value) (call : SNode → Subs) (level : Level) where
  -- A node that the map holds is walked over.
  over_nodes-get :
      (kids : Nodes Subs) (k : Level) (n : SNode)
      → get kids k ≡ some n
      → Has v (taken call level k n)
      → Has v (over_nodes call level kids)
  unfolding over_nodes get taken
  over_nodes-get nil k n e h = cc
  over_nodes-get (entry j m rest) k n e h = elim (Bool-cases (same j k)) [
    | inl p ↦
        let q : j ≡ k = (same_iff j k).0 p in
        let s : some m ≡ some n = rw p at e in
        let r : m ≡ n = cc s in Has-append_left v (taken call level j m) _ (rw (q, r) h)
    | inr p ↦ Has-append_right v (taken call level j m) _ (over_nodes-get rest k n (rw p at e) h)
  ]

  pub record Source (kids : Nodes Subs) : Type 0 where
    pub key : Level
    pub child : SNode
    pub held : get kids key ≡ some child
    pub gives : Has v (taken call level key child)

  -- What the walk finds comes from a node that the map holds.
  get-over_nodes :
      {kids : Nodes Subs} → AreDistinct kids → Has v (over_nodes call level kids) → Source kids
  unfolding over_nodes get taken
  get-over_nodes at_nil h = absurd h
  get-over_nodes (at_entry k n rest g d ds) h =
      elim (Has-append v (taken call level k n) (over_nodes call level rest) h) [
        | inl x ↦ record { key = k; child = n; held = rw (same_refl k); gives = x }
        | inr x ↦ later (get-over_nodes ds x)
      ]
    where
      later : Source rest → Source (entry k n rest)
      later s = record {
        key = s.key;
        child = s.child;
        held = ground (arith, s.held, g, same_iff k s.key);
        gives = s.gives;
      }

-- A subscription under a filter that matches the levels.
pub record Subscribed (v : Value) (t : SNode) (ls : List Level) : Type 0 where
  pub filter : List Level
  pub matching : Matches filter ls
  pub sub : Has v (subs_at t filter)

swc-ne-mwc : swc ≢ mwc
swc-ne-mwc e = cc e

subs_at_self : (n : SNode) → subs_at n [] ≡ subs_of (some n)
subs_at_self (node subs kids) = subs_at_leaf subs kids

subs_at_child : (o : Option SNode) → subs_at (child_or_new o) [] ≡ subs_of o
subs_at_child none = subs_at_new []
subs_at_child (some n) = subs_at_self n

subs_at_one :
    (subs : Subs) (kids : Nodes Subs) (k : Level)
    → subs_at (node subs kids) (k ∷ []) ≡ subs_of (get kids k)
subs_at_one subs kids k = subs_at_cons subs kids k [] ∙ subs_at_child (get kids k)

from_Source :
    (v : Value) (subs : Subs) (kids : Nodes Subs) (l : Level) (ls : List Level)
    → AreDistinct kids
    → ((n : SNode) → IsDistinct n → Has v (delivered n ls) → Subscribed v n ls)
    → Source v (λ n. delivered n ls) l kids
    → Subscribed v (node subs kids) (l ∷ ls)
from_Source v subs kids l ls ds ih s =
    elim (taken_cases v (λ n. delivered n ls) l s.key s.child s.gives) [
      | inl e ↦ record {
        filter = mwc ∷ [];
        matching = multi (l ∷ ls);
        sub =
            let g : get kids mwc ≡ some s.child = rw e at s.held in
            rw (subs_at_one subs kids mwc, g) (rw (e, taken-mwc) at s.gives);
      }
      | inr (far, near) ↦
          let below =
            ih s.child (get-IsDistinct ds s.key s.child s.held)
              (rw (taken_call (λ n. delivered n ls) l s.key s.child far near) at s.gives) in
          record {
            filter = s.key ∷ below.filter;
            matching = step far near below.matching;
            sub = rw (subs_at_cons, s.held) below.sub;
          }
    ]
  where
    step :
        {k : Level} {f : List Level}
        → k ≢ mwc
        → (k ≡ swc) ⊎ (k ≡ l)
        → Matches f ls
        → Matches (k ∷ f) (l ∷ ls)
    step {f = f} far (inl e) m =
        subst (λ (j : Level). Matches (j ∷ f) (l ∷ ls)) (sym e) (single l m)
    step {f = f} far (inr e) m =
        subst (λ (j : Level). Matches (j ∷ f) (l ∷ ls)) (sym e) (exact l (rw e at far) m)

-- A subscription under the child for a key is found through that child.
at_child :
    (v : Value) (subs : Subs) (kids : Nodes Subs) (k : Level) (f : List Level) (call : SNode → Subs)
    (l : Level)
    → Has v (subs_at (node subs kids) (k ∷ f))
    → ((n : SNode) → Has v (subs_at n f) → Has v (taken call l k n))
    → Has v (over_nodes call l kids)
at_child v subs kids k f call l h go = elim (Option-cases (get kids k)) [
  | inl e ↦ absurd (rw (subs_at_cons, e, subs_at_new) at h)
  | inr (n, e) ↦ over_nodes-get v call l kids k n e (go n (rw (subs_at_cons, e) at h))
]

-- Only subscribers with a matching filter are reached.
pub delivered-Subscribed :
    (v : Value) (t : SNode) (ls : List Level)
    → IsDistinct t
    → Has v (delivered t ls)
    → Subscribed v t ls
unfolding delivered
delivered-Subscribed v (node subs kids) [] d h =
    elim (Has-append v subs (subs_of (get kids mwc)) h) [
      | inl x ↦ record { filter = []; matching = here; sub = rw subs_at_leaf x }
      | inr x ↦ record {
        filter = mwc ∷ [];
        matching = multi [];
        sub = rw (subs_at_one subs kids mwc) x;
      }
    ]
delivered-Subscribed v (node subs kids) (l ∷ ls) (at_node _ _ ds) h =
    from_Source v subs kids l ls ds (λ n dn. delivered-Subscribed v n ls dn)
      (get-over_nodes v (λ n. delivered n ls) l ds h)

-- Every subscriber with a matching filter is reached.
pub Subscribed-delivered :
    (v : Value) (t : SNode) {f ls : List Level}
    → Matches f ls
    → Has v (subs_at t f)
    → Has v (delivered t ls)
unfolding delivered
Subscribed-delivered v (node subs kids) here h = Has-append_left v subs _ (rw subs_at_leaf at h)
Subscribed-delivered v (node subs kids) (multi []) h =
    Has-append_right v subs _ (rw (subs_at_one subs kids mwc) at h)
Subscribed-delivered v (node subs kids) (multi (l ∷ ls)) h =
    at_child v subs kids mwc [] (λ n. delivered n ls) l h
      (λ n x. rw taken-mwc (rw (subs_at_self n) at x))
Subscribed-delivered v (node subs kids) (single l {f = f} {ls = ls} m) h =
    at_child v subs kids swc f (λ n. delivered n ls) l h
      (λ n x.
        rw (taken_call (λ n. delivered n ls) l swc n swc-ne-mwc (inl refl))
          (Subscribed-delivered v n m x))
Subscribed-delivered v (node subs kids) (exact l {f = f} {ls = ls} far m) h =
    at_child v subs kids l f (λ n. delivered n ls) l h
      (λ n x.
        rw (taken_call (λ n. delivered n ls) l l n far (inr refl)) (Subscribed-delivered v n m x))

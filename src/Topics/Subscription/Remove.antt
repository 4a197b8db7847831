-- ===== src/Topics/Subscription/Remove.antt =====
-- `sremove` of topics/memtopics.go against the table.
use magic_mqtt.Prelude.{
  ℕ, zero, suc, ◌≡◌, ◌≢◌, refl, ap, ◌∙◌, Bool, true, false, Bool-cases, Option, Option-cases, none,
  some, inl, inr, List, [], ◌∷◌, if◌then◌else◌,
}
use magic_mqtt.Topics.Level.{
  Level, Outcome, ok, err, stuck, no_topic, same, same_iff, next_topic_level,
}
use magic_mqtt.Topics.Levels.{levels, levels-Split, same_path}
use magic_mqtt.Topics.Trie.{Nodes, node, nil, entry, get, remove}
use magic_mqtt.Topics.Trie.Laws.{get-remove}
use magic_mqtt.Topics.Value.{Value, nothing, equal}
use magic_mqtt.Topics.Subscription.{
  SNode, Subs, new_snode, child_or_new, remove_sub, remove_leaf, leaf_result, is_unused,
  after_remove, sremove,
}
use magic_mqtt.Topics.Subscription.Table.{subs_at, subs_at_leaf, subs_at_cons, subs_at_new}
use magic_mqtt.Topics.Subscription.Insert.{subs_at-put}

abbrev keep : Subs → Option Subs → Subs
keep subs none = subs
keep subs (some r) = r

-- All pairs but the first whose subscriber a test holds for.
unfoldable pub drop_first : (Value → Bool) → Subs → Subs
drop_first f [] = []
drop_first f ((v, q) ∷ es) = let rest = drop_first f es in if f v then es else (v, q) ∷ rest

-- The subscribers of a leaf after a removal; the nil subscriber removes all.
unfoldable pub removed : Value → Subs → Subs
removed nothing subs = []
removed sub subs = drop_first (λ v. equal v sub) subs

removed_nil : (sub : Value) → removed sub [] ≡ []
unfolding removed drop_first
removed_nil nothing = refl
removed_nil _ = refl

remove_sub-drop_first :
    (sub : Value) (subs : Subs)
    → keep subs (remove_sub sub subs) ≡ drop_first (λ v. equal v sub) subs
unfolding remove_sub drop_first
remove_sub-drop_first sub [] = refl
remove_sub-drop_first sub ((s, q) ∷ es) = elim (Bool-cases (equal s sub)) [
  | inl e ↦ rw e refl
  | inr e ↦ rw e (by_option (remove_sub sub es) (remove_sub-drop_first sub es))
]
  where
    by_option :
        (o : Option Subs)
        → keep es o ≡ drop_first (λ v. equal v sub) es
        → keep ((s, q) ∷ es) (elim o [ none ↦ none | some r ↦ some ((s, q) ∷ r) ])
          ≡ (s, q) ∷ drop_first (λ v. equal v sub) es
    by_option none h = ap (λ es. (s, q) ∷ es) h
    by_option (some r) h = ap (λ es. (s, q) ∷ es) h

unused_new : (n : SNode) → is_unused n ≡ true → n ≡ new_snode
unused_new (node [] nil) e = refl
unused_new (node [] (entry k n ns)) e = cc
unused_new (node (p ∷ subs) kids) e = cc

-- Putting back what a removal left of a child, or dropping it when it is unused.
subs_at-after :
    (subs : Subs) (kids : Nodes Subs) (l k : Level) (ks : List Level) (r : Outcome (Unit {0}))
    (n : SNode)
    → r ≢ stuck
    → subs_at (after_remove subs kids l (r, n)).1 (k ∷ ks)
      ≡ (if same l k then subs_at n ks else subs_at (node subs kids) (k ∷ ks))
subs_at-after subs kids l k ks (ok u) n h = elim (Bool-cases (is_unused n)) [
  | inl p ↦ rw p (
      subs_at_cons subs (remove kids l) k ks
      ∙ rw (get-remove kids l k, unused_new n p, subs_at_new, subs_at_cons) (dropped (same l k)))
  | inr p ↦ rw p (subs_at-put subs kids l k ks n)
]
  where
    dropped :
        (b : Bool)
        → subs_at (child_or_new (if b then none else get kids k)) ks
          ≡ (if b then [] else subs_at (child_or_new (get kids k)) ks)
    dropped true = subs_at_new ks
    dropped false = refl
subs_at-after subs kids l k ks (err e) n h = subs_at-put subs kids l k ks n
subs_at-after subs kids l k ks stuck n h = absurd (h refl)

leaf-removed :
    (subs : Subs) (kids : Nodes Subs) (sub : Value)
    → (remove_leaf subs kids sub).1 ≡ node (removed sub subs) kids
unfolding removed
leaf-removed subs kids nothing = refl
leaf-removed subs kids sub =
    by_option (remove_sub sub subs) ∙ ap (λ es. node es kids) (remove_sub-drop_first sub subs)
  where
    by_option : (o : Option Subs) → (leaf_result subs kids o).1 ≡ node (keep subs o) kids
    by_option none = refl
    by_option (some r) = refl

leaf-ne-stuck :
    (subs : Subs) (kids : Nodes Subs) (sub : Value) → (remove_leaf subs kids sub).0 ≢ stuck
leaf-ne-stuck subs kids nothing e = cc
leaf-ne-stuck subs kids sub e = by_option (remove_sub sub subs) e
  where
    by_option : (o : Option Subs) → (leaf_result subs kids o).0 ≢ stuck
    by_option none e = cc
    by_option (some r) e = cc

after_leaf :
    (subs : Subs) (kids : Nodes Subs) (l : Level) (p : Outcome (Unit {0}) × SNode)
    → subs_at (after_remove subs kids l p).1 [] ≡ subs_at (node subs kids) []
after_leaf subs kids l (ok u, n) = simp subs_at_leaf
after_leaf subs kids l (err x, n) = simp subs_at_leaf
after_leaf subs kids l (stuck, n) = refl

-- One step of the walk down.
module _ (fuel : ℕ) (subs : Subs) (kids : Nodes Subs) (c : ℕ) (r : List ℕ) (sub : Value) where
  step_none :
      (l : Level) (rem : List ℕ)
      → next_topic_level (c ∷ r) ≡ ok (l, rem)
      → get kids l ≡ none
      → sremove (suc fuel) (node subs kids) (c ∷ r) sub ≡ (err no_topic, node subs kids)
  unfolding sremove
  step_none l rem e g = rw (e, sremove) (rw g)

  step_some :
      (l : Level) (rem : List ℕ) (n : SNode)
      → next_topic_level (c ∷ r) ≡ ok (l, rem)
      → get kids l ≡ some n
      → sremove (suc fuel) (node subs kids) (c ∷ r) sub
        ≡ after_remove subs kids l (sremove fuel n rem sub)
  unfolding sremove
  step_some l rem n e g = rw (e, sremove) (rw g)

after-ne-stuck :
    (subs : Subs) (kids : Nodes Subs) (l : Level) (p : Outcome (Unit {0}) × SNode)
    → p.0 ≢ stuck
    → (after_remove subs kids l p).0 ≢ stuck
after-ne-stuck subs kids l (ok u, n) h e = cc
after-ne-stuck subs kids l (err x, n) h e = cc
after-ne-stuck subs kids l (stuck, n) h e = h refl

pub sremove-ne-stuck :
    (fuel : ℕ) (t : SNode) (topic : List ℕ) (sub : Value) (ls : List Level)
    → levels fuel topic ≡ ok ls
    → (sremove fuel t topic sub).0 ≢ stuck
sremove-ne-stuck fuel (node subs kids) [] sub ls e = unfold sremove in leaf-ne-stuck subs kids sub
sremove-ne-stuck zero t (c ∷ r) sub ls e = unfold levels in cc
sremove-ne-stuck (suc fuel) (node subs kids) (c ∷ r) sub ls e =
    let s = levels-Split fuel c r ls e in
    elim (Option-cases (get kids s.first)) [
      | inl g ↦ rw (step_none fuel subs kids c r sub s.first s.left s.next g) (λ x. cc)
      | inr (n, g) ↦ rw (step_some fuel subs kids c r sub s.first s.left n s.next g) (
          after-ne-stuck subs kids s.first (sremove fuel n s.left sub)
            (sremove-ne-stuck fuel n s.left sub s.others s.rest))
    ]

-- Where the topic splits into levels with the fuel, `sremove` removes the subscriber from the pairs
-- at those levels, if it is there, or all of them if it is nil, and changes no other entry of the
-- table, also where it fails or drops nodes.
pub subs_at-sremove :
    (fuel : ℕ) (t : SNode) (topic : List ℕ) (sub : Value) (ls ks : List Level)
    → levels fuel topic ≡ ok ls
    → subs_at (sremove fuel t topic sub).1 ks
      ≡ (if same_path ls ks then removed sub (subs_at t ks) else subs_at t ks)
unfolding same_path
subs_at-sremove fuel (node subs kids) [] sub ls ks e = leaf ls ks (unfold levels in e)
  where
    leaf :
        (ls ks : List Level)
        → ok [] ≡ ok ls
        → subs_at (sremove fuel (node subs kids) [] sub).1 ks ≡ (
            if same_path ls ks
            then removed sub (subs_at (node subs kids) ks)
            else subs_at (node subs kids) ks)
    leaf [] [] p = unfold sremove in rw (leaf-removed subs kids sub) (simp subs_at_leaf)
    leaf [] (k ∷ ks) p = unfold sremove in rw (leaf-removed subs kids sub) (simp subs_at_cons)
    leaf (l ∷ ls) ks p = cc
subs_at-sremove zero t (c ∷ r) sub ls ks e = unfold levels in cc
subs_at-sremove (suc fuel) (node subs kids) (c ∷ r) sub ls [] e =
    let s = levels-Split fuel c r ls e in
    elim (Option-cases (get kids s.first)) [
      | inl g ↦ rw (s.whole, step_none fuel subs kids c r sub s.first s.left s.next g)
      | inr (n, g) ↦
          rw (s.whole, step_some fuel subs kids c r sub s.first s.left n s.next g)
            (after_leaf subs kids s.first (sremove fuel n s.left sub))
    ]
subs_at-sremove (suc fuel) (node subs kids) (c ∷ r) sub ls (k ∷ ks) e =
    let s = levels-Split fuel c r ls e in
    elim (Option-cases (get kids s.first)) [
      | inl g ↦
          rw (s.whole, step_none fuel subs kids c r sub s.first s.left s.next g)
            (elim (Bool-cases (same s.first k)) [
              | inl p ↦
                  let q : s.first ≡ k = (same_iff s.first k).0 p in
                  rw (p, subs_at_cons, ← q, g, subs_at_new)
                    (nothing_removed (same_path s.others ks))
              | inr p ↦ rw p
            ])
      | inr (n, g) ↦
          let ih = subs_at-sremove fuel n s.left sub s.others ks s.rest in
          rw (s.whole, step_some fuel subs kids c r sub s.first s.left n s.next g)
            (subs_at-after subs kids s.first k ks _ _
                (sremove-ne-stuck fuel n s.left sub s.others s.rest)
              ∙ elim (Bool-cases (same s.first k)) [
                | inl p ↦
                    let q : s.first ≡ k = (same_iff s.first k).0 p in
                    rw (p, subs_at_cons, ← q, g) ih
                | inr p ↦ rw p
              ])
    ]
  where
    nothing_removed : (b : Bool) → [] ≡ (if b then removed sub [] else [])
    nothing_removed true = rw (removed_nil sub)
    nothing_removed false = refl

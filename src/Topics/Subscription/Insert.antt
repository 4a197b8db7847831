-- ===== src/Topics/Subscription/Insert.antt =====
-- `sinsert` of topics/memtopics.go against the table.
use magic_mqtt.Prelude.{
  ℕ, zero, suc, ◌≡◌, refl, ap, ◌∙◌, Bool, true, false, Bool-cases, inl, inr, Option, none, some,
  ◌&&◌, length, List, [], ◌∷◌, if◌then◌else◌,
}
use magic_mqtt.Topics.Level.{Level, ok, same, same_iff, next_topic_level}
use magic_mqtt.Topics.Levels.{levels, levels-Split, same_path}
use magic_mqtt.Topics.Trie.{Nodes, node, get, put}
use magic_mqtt.Topics.Trie.Laws.{get-put}
use magic_mqtt.Topics.Value.{Value, equal, equal→eq}
use magic_mqtt.Topics.Subscription.{SNode, Subs, child_or_new, insert_sub, sinsert}
use magic_mqtt.Topics.Subscription.Table.{subs_at, subs_at_leaf, subs_at_cons}

sinsert_step :
    (fuel : ℕ) (subs : Subs) (kids : Nodes Subs) (c : ℕ) (r : List ℕ) (qos : ℕ) (sub : Value)
    (l : Level) (rem : List ℕ)
    → next_topic_level (c ∷ r) ≡ ok (l, rem)
    → sinsert (suc fuel) (node subs kids) (c ∷ r) qos sub ≡ (
      (sinsert fuel (child_or_new (get kids l)) rem qos sub).0,
      node subs (put kids l (sinsert fuel (child_or_new (get kids l)) rem qos sub).1),
    )
unfolding sinsert
sinsert_step fuel subs kids c r qos sub l rem e = rw (e, sinsert)

pub sinsert-ok :
    (fuel : ℕ) (t : SNode) (topic : List ℕ) (qos : ℕ) (sub : Value) (ls : List Level)
    → levels fuel topic ≡ ok ls
    → (sinsert fuel t topic qos sub).0 ≡ ok tt
unfolding sinsert
sinsert-ok fuel (node subs kids) [] qos sub ls e = refl
sinsert-ok zero t (c ∷ r) qos sub ls e = unfold levels in cc
sinsert-ok (suc fuel) (node subs kids) (c ∷ r) qos sub ls e =
    let s = levels-Split fuel c r ls e in
    rw (sinsert_step fuel subs kids c r qos sub s.first s.left s.next)
      (sinsert-ok fuel (child_or_new (get kids s.first)) s.left qos sub s.others s.rest)

-- The table after an insertion at the child of a node.
pub subs_at-put :
    (subs : Subs) (kids : Nodes Subs) (l k : Level) (ks : List Level) (n : SNode)
    → subs_at (node subs (put kids l n)) (k ∷ ks)
      ≡ (if same l k then subs_at n ks else subs_at (node subs kids) (k ∷ ks))
subs_at-put subs kids l k ks n =
    subs_at_cons subs (put kids l n) k ks
    ∙ rw (get-put kids l k n, subs_at_cons) (by_test (same l k))
  where
    by_test :
        (b : Bool)
        → subs_at (child_or_new (if b then some n else get kids k)) ks
          ≡ (if b then subs_at n ks else subs_at (child_or_new (get kids k)) ks)
    by_test true = refl
    by_test false = refl

pub subs_at-sinsert :
    (fuel : ℕ) (t : SNode) (topic : List ℕ) (qos : ℕ) (sub : Value) (ls ks : List Level)
    → levels fuel topic ≡ ok ls
    → subs_at (sinsert fuel t topic qos sub).1 ks
      ≡ (if same_path ls ks then insert_sub sub qos (subs_at t ks) else subs_at t ks)
unfolding same_path
subs_at-sinsert fuel (node subs kids) [] qos sub ls ks e = leaf ls ks (unfold levels in e)
  where
    leaf :
        (ls ks : List Level)
        → ok [] ≡ ok ls
        → subs_at (sinsert fuel (node subs kids) [] qos sub).1 ks ≡ (
            if same_path ls ks
            then insert_sub sub qos (subs_at (node subs kids) ks)
            else subs_at (node subs kids) ks)
    leaf [] [] p = unfold sinsert in simp subs_at_leaf
    leaf [] (k ∷ ks) p = unfold sinsert in simp subs_at_cons
    leaf (l ∷ ls) ks p = cc
subs_at-sinsert zero t (c ∷ r) qos sub ls ks e = unfold levels in cc
subs_at-sinsert (suc fuel) (node subs kids) (c ∷ r) qos sub ls [] e =
    let s = levels-Split fuel c r ls e in
    rw (s.whole, sinsert_step fuel subs kids c r qos sub s.first s.left s.next) (simp subs_at_leaf)
subs_at-sinsert (suc fuel) (node subs kids) (c ∷ r) qos sub ls (k ∷ ks) e =
    let s = levels-Split fuel c r ls e in
    let child = child_or_new (get kids s.first) in
    let ih = subs_at-sinsert fuel child s.left qos sub s.others ks s.rest in
    rw (s.whole, sinsert_step fuel subs kids c r qos sub s.first s.left s.next)
      (subs_at-put subs kids s.first k ks (sinsert fuel child s.left qos sub).1
        ∙ elim (Bool-cases (same s.first k)) [
          | inl p ↦ let q : s.first ≡ k = (same_iff s.first k).0 p in rw (p, subs_at_cons, ← q) ih
          | inr p ↦ rw p
        ])

-- The QoS of the first equal subscriber.
unfoldable pub qos_of : Value → Subs → Option ℕ
qos_of v [] = none
qos_of v ((s, q) ∷ es) = let rest = qos_of v es in if equal s v then some q else rest

-- The number of pairs with one more, where there is no equal subscriber.
abbrev pub grown : Option ℕ → ℕ → ℕ
grown none n = suc n
grown (some q) n = n

qos_of-insert_sub :
    (v sub : Value) (qos : ℕ) (es : Subs)
    → qos_of v (insert_sub sub qos es) ≡ (if equal sub v then some qos else qos_of v es)
unfolding qos_of insert_sub
qos_of-insert_sub v sub qos [] = refl
qos_of-insert_sub v sub qos ((s, q) ∷ es) = elim (Bool-cases (equal s sub)) [
  | inl e ↦ rw (e, ← equal→eq s sub e) (by_test (equal s v))
  | inr e ↦
      rw (e, qos_of-insert_sub v sub qos es)
        (elim (Bool-cases (equal sub v)) [
          | inl g ↦
              let differs : equal s v ≡ false = rw (← equal→eq sub v g) e in rw (g, differs) refl
          | inr g ↦ rw g refl
        ])
]
  where
    by_test :
        (t : Bool)
        → (if t then some qos else qos_of v es)
          ≡ (if t then some qos else (if t then some q else qos_of v es))
    by_test true = refl
    by_test false = refl

length-insert_sub :
    (sub : Value) (qos : ℕ) (es : Subs)
    → length (insert_sub sub qos es) ≡ grown (qos_of sub es) (length es)
unfolding qos_of insert_sub
length-insert_sub sub qos [] = refl
length-insert_sub sub qos ((s, q) ∷ es) = elim (Bool-cases (equal s sub)) [
  | inl e ↦ rw e refl
  | inr e ↦ rw e (ap suc (length-insert_sub sub qos es) ∙ by_option (qos_of sub es))
]
  where
    by_option : (o : Option ℕ) → suc (grown o (length es)) ≡ grown o (suc (length es))
    by_option none = refl
    by_option (some x) = refl

-- Where the topic splits into levels with the fuel, behind `sinsert` a value has the QoS of the
-- insertion at those levels, if it equals the subscriber, and else the one that it had, also at all
-- other levels; a function equals nothing. The entry at those levels has one pair more, where no
-- equal subscriber was there, and every other entry of the table is the old one.
pub qos_of-sinsert :
    (fuel : ℕ) (t : SNode) (topic : List ℕ) (qos : ℕ) (sub v : Value) (ls ks : List Level)
    → levels fuel topic ≡ ok ls
    → let before = subs_at t ks in
      let after = subs_at (sinsert fuel t topic qos sub).1 ks in
      (qos_of v after ≡ (if same_path ls ks && equal sub v then some qos else qos_of v before))
      × (length after
          ≡ (if same_path ls ks then grown (qos_of sub before) (length before) else length before))
      × ((if same_path ls ks then before else after) ≡ before)
qos_of-sinsert fuel t topic qos sub v ls ks e =
    rw (subs_at-sinsert fuel t topic qos sub ls ks e) (elim (Bool-cases (same_path ls ks)) [
      | inl p ↦ rw p (
        qos_of-insert_sub v sub qos (subs_at t ks),
        length-insert_sub sub qos (subs_at t ks),
        refl,
      )
      | inr p ↦ rw p (refl, refl, refl)
    ])

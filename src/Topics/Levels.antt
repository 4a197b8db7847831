-- ===== src/Topics/Levels.antt =====
-- A topic as the list of its levels: `nextTopicLevel` of topics/memtopics.go called until nothing is
-- left. The recursion is on fuel, and the length of the topic is enough.
pub mod Last
use magic_mqtt.Prelude.{
  ℕ, zero, suc, ◌≤◌, ◌≡◌, ◌≢◌, ◌↔◌, refl, Bool, true, false, ◌&&◌, List, [], ◌∷◌, length, arith,
}
use magic_mqtt.Topics.Level.{
  Level, Outcome, ok, err, stuck, same, same_iff, next_topic_level, next_topic_level_shrinks,
  next_topic_level-ne-stuck,
}

abbrev pub cons_level : Level → Outcome (List Level) → Outcome (List Level)
cons_level l (ok ls) = ok (l ∷ ls)
cons_level l (err e) = err e
cons_level l stuck = stuck

unfoldable pub levels : ℕ → List ℕ → Outcome (List Level)
levels fuel [] = ok []
levels zero (c ∷ t) = stuck
levels (suc fuel) (c ∷ t) = elim (next_topic_level (c ∷ t)) [
  | ok (l, rem) ↦ cons_level l (levels fuel rem)
  | err e ↦ err e
  | stuck ↦ stuck
]

unfoldable pub topic_levels : List ℕ → Outcome (List Level)
topic_levels topic = levels (length topic) topic

-- The level and what is left behind it, of a topic that splits.
pub record Split (fuel : ℕ) (topic : List ℕ) (ls : List Level) : Type 0 where
  pub first : Level
  pub left : List ℕ
  pub others : List Level
  pub next : next_topic_level topic ≡ ok (first, left)
  pub rest : levels fuel left ≡ ok others
  pub whole : ls ≡ first ∷ others

pub levels-Split :
    (fuel c : ℕ) (t : List ℕ) (ls : List Level)
    → levels (suc fuel) (c ∷ t) ≡ ok ls
    → Split fuel (c ∷ t) ls
unfolding levels
levels-Split fuel c t ls e = first_case (next_topic_level (c ∷ t)) refl
  where
    rest_case :
        (l : Level) (rem : List ℕ)
        → next_topic_level (c ∷ t) ≡ ok (l, rem)
        → (o : Outcome (List Level)) → levels fuel rem ≡ o
        → Split fuel (c ∷ t) ls
    rest_case l rem p (ok os) q = record {
      first = l;
      left = rem;
      others = os;
      next = p;
      rest = q;
      whole = cc;
    }
    rest_case l rem p (err x) q = cc
    rest_case l rem p stuck q = cc

    first_case :
        (o : Outcome (Level × List ℕ)) → next_topic_level (c ∷ t) ≡ o → Split fuel (c ∷ t) ls
    first_case (ok (l, rem)) p = rest_case l rem p (levels fuel rem) refl
    first_case (err x) p = cc
    first_case stuck p = cc

levels-ne-stuck : (fuel : ℕ) (topic : List ℕ) → length topic ≤ fuel → levels fuel topic ≢ stuck
unfolding levels
levels-ne-stuck fuel [] h e = cc
levels-ne-stuck zero (c ∷ t) h e = absurd (omega arith)
levels-ne-stuck (suc fuel) (c ∷ t) h e =
    split (levels-ne-stuck fuel) (next_topic_level (c ∷ t)) refl
  where
    split :
        ((rem : List ℕ) → length rem ≤ fuel → levels fuel rem ≢ stuck)
        → (o : Outcome (Level × List ℕ)) → next_topic_level (c ∷ t) ≡ o
        → ⊥
    split ih (ok (l, rem)) p = ground (arith, ih rem, next_topic_level_shrinks c t l rem p)
    split ih (err x) p = cc
    split ih stuck p = next_topic_level-ne-stuck (c ∷ t) p

-- The levels of every topic are found: splitting ends with a list or an error.
pub topic_levels-ne-stuck : (topic : List ℕ) → topic_levels topic ≢ stuck
unfolding topic_levels
topic_levels-ne-stuck topic = levels-ne-stuck (length topic) topic (omega arith)

-- Two lists of levels are the same.
unfoldable pub same_path : List Level → List Level → Bool
same_path [] [] = true
same_path [] (k ∷ ks) = false
same_path (l ∷ ls) [] = false
same_path (l ∷ ls) (k ∷ ks) = same l k && same_path ls ks

pub same_path_iff : (ls ks : List Level) → (same_path ls ks ≡ true) ↔ (ls ≡ ks)
unfolding same_path
same_path_iff [] [] = (λ e. refl, λ e. refl)
same_path_iff [] (k ∷ ks) = (λ e. cc, λ e. cc)
same_path_iff (l ∷ ls) [] = (λ e. cc, λ e. cc)
same_path_iff (l ∷ ls) (k ∷ ks) = ground (arith, same_path_iff ls ks, same_iff l k)

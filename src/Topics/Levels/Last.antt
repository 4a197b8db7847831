-- ===== src/Topics/Levels/Last.antt =====
-- Where `nextTopicLevel` of topics/memtopics.go lets `#` stand.
use magic_mqtt.Prelude.{
  ℕ, zero, suc, ◌+◌, ◌≡◌, ◌≢◌, refl, false, List, [], ◌∷◌, ◌++◌, ◌==◌, if◌then◌else◌, arith,
}
use magic_mqtt.Topics.Level.{
  Level, ok, mwc, State, state_chr, state_mwc, state_swc, is_mwc, scan, next_topic_level,
}
use magic_mqtt.Topics.Levels.{levels, Split, levels-Split}

-- `#` stands last.
abbrev pub MultiLast : List Level → Type 0
MultiLast [] = Unit {0}
MultiLast (l ∷ ls) = (l ≡ mwc → ls ≡ []) × MultiLast ls

abbrev next_state : ℕ → State
next_state c = if c == b'#' then state_mwc else if c == b'+' then state_swc else state_chr

appended_mwc : (before : List ℕ) (c : ℕ) → before ++ c ∷ [] ≡ mwc → c ≡ b'#'
appended_mwc [] c e = cc
appended_mwc (x ∷ []) c e = cc
appended_mwc (x ∷ y ∷ r) c e = cc

is_mwc-next_state :
    (before : List ℕ) (c : ℕ) → is_mwc (next_state c) ≡ false → before ++ c ∷ [] ≢ mwc
is_mwc-next_state before c h e = ground (arith, appended_mwc before c e)

scan-mwc :
    (s : State) (i : ℕ) (before topic rem : List ℕ)
    → (is_mwc s ≡ false → before ≢ mwc)
    → scan s i before topic ≡ ok (mwc, rem)
    → rem ≡ []
unfolding scan
scan-mwc s i before [] rem h e = cc
scan-mwc s i before (c ∷ rest) rem h e = ground (
  arith,
  h,
  scan-mwc (next_state c) (i + 1) (before ++ c ∷ []) rest rem (is_mwc-next_state before c),
)

next_topic_level-mwc : (topic rem : List ℕ) → next_topic_level topic ≡ ok (mwc, rem) → rem ≡ []
unfolding next_topic_level
next_topic_level-mwc topic rem e = scan-mwc state_chr 0 [] topic rem (λ h q. cc) e

-- In the levels of a topic `#` stands last.
pub levels-MultiLast :
    (fuel : ℕ) (topic : List ℕ) (ls : List Level) → levels fuel topic ≡ ok ls → MultiLast ls
unfolding levels
levels-MultiLast fuel [] [] e = tt
levels-MultiLast fuel [] (l ∷ ls) e = cc
levels-MultiLast zero (c ∷ t) ls e = cc
levels-MultiLast (suc fuel) (c ∷ t) ls e =
    let s = levels-Split fuel c t ls e in
    rw s.whole (last s, levels-MultiLast fuel s.left s.others s.rest)
  where
    last : (s : Split fuel (c ∷ t) ls) → s.first ≡ mwc → s.others ≡ []
    last s q =
        let left : s.left ≡ [] = next_topic_level-mwc (c ∷ t) s.left (rw s.next (rw q refl)) in
        let rest : levels fuel s.left ≡ ok s.others = s.rest in cc (rw left at rest)

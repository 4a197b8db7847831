-- ===== src/Topics/Level.antt =====
-- topics/topics.go's wildcards and `nextTopicLevel` of topics/memtopics.go. A topic is its bytes.
use magic_mqtt.Prelude.{
  ℕ, ◌+◌, ◌≤◌, ◌≡◌, ◌≢◌, ◌↔◌, refl, Bool, true, false, ◌&&◌, ◌||◌, List, [], ◌∷◌, ◌++◌, length,
  ◌==◌, if◌then◌else◌, arith,
}

pub data TopicError : Type 0 where
  invalid_qos subscriber_nil : TopicError
  multi_not_last wildcard_not_alone : TopicError
  no_topic no_subscriber : TopicError

-- Go's error result; `stuck` is no Go value: the model ran out of fuel.
pub data Outcome {ℓ} (A : Type ℓ) : Type ℓ where
  ok : A → Outcome A
  err : TopicError → Outcome A
  stuck : Outcome A

abbrev pub Level : Type 0
Level = List ℕ

abbrev pub mwc : Level
mwc = b'#' ∷ []

abbrev pub swc : Level
swc = b'+' ∷ []

-- Go's `==` on strings.
unfoldable pub same : Level → Level → Bool
same [] [] = true
same [] (y ∷ ys) = false
same (x ∷ xs) [] = false
same (x ∷ xs) (y ∷ ys) = x == y && same xs ys

pub data State : Type 0 where
  state_chr state_mwc state_swc : State

abbrev pub is_chr : State → Bool
is_chr state_chr = true
is_chr _ = false

abbrev pub is_mwc : State → Bool
is_mwc state_mwc = true
is_mwc _ = false

-- The loop of `nextTopicLevel`: the state, the index, the bytes passed and those still to come. An
-- empty level in front of a separator is answered as `+`.
unfoldable pub scan : State → ℕ → List ℕ → List ℕ → Outcome (Level × List ℕ)
scan s i before [] = ok (before, [])
scan s i before (c ∷ rest) =
    let s' = if c == b'#' then state_mwc else if c == b'+' then state_swc else state_chr in
    let next = scan s' (i + 1) (before ++ c ∷ []) rest in
    if c == b'/'
    then (if is_mwc s
        then err multi_not_last
        else if i == 0
        then ok (swc, rest)
        else ok (before, rest))
    else if c == b'#' || c == b'+'
    then (if i == 0 then next else err wildcard_not_alone)
    else if is_chr s
    then next
    else err wildcard_not_alone

unfoldable pub next_topic_level : List ℕ → Outcome (Level × List ℕ)
next_topic_level topic = scan state_chr 0 [] topic

-- What is left is no longer than the topic, and shorter than a topic that is not empty.
scan_shrinks :
    (s : State) (i : ℕ) (before topic : List ℕ) (level rem : List ℕ)
    → scan s i before topic ≡ ok (level, rem)
    → length rem ≤ length topic
unfolding scan
scan_shrinks s i before [] level rem e = ground arith
scan_shrinks s i before (c ∷ rest) level rem e = ground (
  arith,
  scan_shrinks (if c == b'#' then state_mwc else if c == b'+' then state_swc else state_chr) (i + 1)
      (before ++ c ∷ []) rest level rem,
)

pub next_topic_level_shrinks :
    (c : ℕ) (t level rem : List ℕ)
    → next_topic_level (c ∷ t) ≡ ok (level, rem)
    → length rem ≤ length t
unfolding next_topic_level scan
next_topic_level_shrinks c t level rem e = ground (
  arith,
  scan_shrinks (if c == b'#' then state_mwc else if c == b'+' then state_swc else state_chr) (0 + 1)
      ([] ++ c ∷ []) t level rem,
)

scan-ne-stuck : (s : State) (i : ℕ) (before topic : List ℕ) → scan s i before topic ≢ stuck
unfolding scan
scan-ne-stuck s i before [] e = cc
scan-ne-stuck s i before (c ∷ rest) e = ground (
  arith,
  scan-ne-stuck (if c == b'#' then state_mwc else if c == b'+' then state_swc else state_chr)
      (i + 1) (before ++ c ∷ []) rest,
)

pub next_topic_level-ne-stuck : (topic : List ℕ) → next_topic_level topic ≢ stuck
unfolding next_topic_level
next_topic_level-ne-stuck topic = scan-ne-stuck state_chr 0 [] topic

pub same_iff : (a b : Level) → (same a b ≡ true) ↔ (a ≡ b)
unfolding same
same_iff [] [] = (λ e. refl, λ e. refl)
same_iff [] (y ∷ ys) = (λ e. cc, λ e. cc)
same_iff (x ∷ xs) [] = (λ e. cc, λ e. cc)
same_iff (x ∷ xs) (y ∷ ys) = ground (arith, same_iff xs ys)

pub same_refl : (a : Level) → same a a ≡ true
same_refl a = (same_iff a a).1 refl

-- A filter or topic that starts with a separator is read as if it started with `+` and a separator:
-- nothing tells the two apart, so "/x" subscribes to the topics "a/x" too.
pub next_topic_level_slash :
    (rest : List ℕ) → next_topic_level (b'/' ∷ rest) ≡ next_topic_level (b'+' ∷ b'/' ∷ rest)
unfolding next_topic_level scan
next_topic_level_slash rest = refl

-- ===== src/Topics/Manager.antt =====
-- `Manager` of topics/topics.go, which passes every call on to its provider, with `Close` of
-- topics/memtopics.go: behind it both roots are nil. A provider is shared by pointer with the map of
-- providers, so its state is passed along here; `none` is one that was closed.
use magic_mqtt.Prelude.{
  ℕ, ◌≡◌, ◌≢◌, refl, sym, ◌∙◌, Option, none, some, Bool-cases, inl, inr, List, [], ◌∷◌,
  if◌then◌else◌,
}
use magic_mqtt.Packet.Publish.{Publish}
use magic_mqtt.Topics.Level.{
  Level, Outcome, ok, err, stuck, invalid_qos, subscriber_nil, next_topic_level,
}
use magic_mqtt.Topics.Value.{Value, nothing, pointer, func, string, number}
use magic_mqtt.Topics.Subscription.{Found}
use magic_mqtt.Topics.Retained.{Retrieved}
use magic_mqtt.Topics.Memory.{
  MemTopics, valid_qos, qos_failure, subscribe, unsubscribe, subscribers, retain, retained,
}

abbrev pub Provider : Type 0
Provider = Option MemTopics

-- A call answers or panics.
pub data Called (X : Type 0) : Type 0 where
  answer : X → Called X
  panic : Called X

-- A recursive method of snode or rnode on nil: it reads a field of it, and panics, unless the topic
-- has no first level. `fail` makes the answer of an error.
abbrev pub after_level :
    {X : Type 0} → (Outcome (Unit {0}) → X) → Outcome (Level × List ℕ) → Called X
after_level fail (ok p) = panic
after_level fail (err e) = answer (fail (err e))
after_level fail stuck = answer (fail stuck)

abbrev pub on_nil : {X : Type 0} → (Outcome (Unit {0}) → X) → List ℕ → Called X
on_nil fail [] = panic
on_nil fail (c ∷ t) = after_level fail (next_topic_level (c ∷ t))

-- `Close`
abbrev pub close : Provider → Provider
close p = none

abbrev pub subscribe_nil : List ℕ → Value → Called (ℕ × Outcome (Unit {0}))
subscribe_nil topic nothing = answer (qos_failure, err subscriber_nil)
subscribe_nil topic sub = on_nil (λ e. (qos_failure, e)) topic

unfoldable pub manager_subscribe :
    Provider → List ℕ → ℕ → Value → Called (ℕ × Outcome (Unit {0})) × Provider
manager_subscribe (some m) topic qos sub =
    let (a, m') = subscribe m topic qos sub in (answer a, some m')
manager_subscribe none topic qos sub =
    (if valid_qos qos then subscribe_nil topic sub else answer (qos_failure, err invalid_qos), none)

unfoldable pub manager_unsubscribe :
    Provider → List ℕ → Value → Called (Outcome (Unit {0})) × Provider
manager_unsubscribe (some m) topic sub =
    let (a, m') = unsubscribe m topic sub in (answer a, some m')
manager_unsubscribe none topic sub = (on_nil (λ e. e) topic, none)

unfoldable pub manager_subscribers : Provider → List ℕ → ℕ → Called Found
manager_subscribers (some m) topic qos = answer (subscribers m topic qos)
manager_subscribers none topic qos =
    if valid_qos qos then on_nil (λ e. (e, [])) topic else answer (err invalid_qos, [])

unfoldable pub manager_retain : Provider → Publish → Called (Outcome (Unit {0})) × Provider
manager_retain (some m) msg = let (a, m') = retain m msg in (answer a, some m')
manager_retain none msg = (on_nil (λ e. e) msg.topic_name, none)

unfoldable pub manager_retained : Provider → List ℕ → List Publish → Called Retrieved
manager_retained (some m) topic msgs = answer (retained m topic msgs)
manager_retained none topic msgs = on_nil (λ e. (e, msgs)) topic

-- A call that panics, or whose answer has an error.
abbrev pub Fails : {X : Type 0} → (X → Outcome (Unit {0})) → Called X → Type 0
Fails error (answer x) = error x ≢ ok tt
Fails error panic = Unit {0}

on_nil-Fails :
    {X : Type 0} (fail : Outcome (Unit {0}) → X) (error : X → Outcome (Unit {0})) (topic : List ℕ)
    → ((o : Outcome (Unit {0})) → error (fail o) ≡ o)
    → Fails error (on_nil fail topic)
on_nil-Fails fail error [] h = tt
on_nil-Fails fail error (c ∷ t) h = by_level (next_topic_level (c ∷ t))
  where
    by_level : (o : Outcome (Level × List ℕ)) → Fails error (after_level fail o)
    by_level (ok p) = tt
    by_level (err x) = λ e. cc (sym (h (err x)) ∙ e)
    by_level stuck = λ e. cc (sym (h stuck) ∙ e)

failing :
    (topic : List ℕ)
    → Fails {X = ℕ × Outcome (Unit {0})} (λ a. a.1) (on_nil (λ e. (qos_failure, e)) topic)
failing topic = on_nil-Fails (λ e. (qos_failure, e)) (λ a. a.1) topic (λ o. refl)

subscribe_nil-Fails : (topic : List ℕ) (sub : Value) → Fails (λ a. a.1) (subscribe_nil topic sub)
subscribe_nil-Fails topic nothing = λ e. cc
subscribe_nil-Fails topic (pointer a) = failing topic
subscribe_nil-Fails topic (func a) = failing topic
subscribe_nil-Fails topic (string a) = failing topic
subscribe_nil-Fails topic (number k a) = failing topic

-- Behind `Close` of the provider no call of the manager succeeds: each answers an error or panics.
pub close-Fails :
    (p : Provider) (topic : List ℕ) (qos : ℕ) (sub : Value) (msg : Publish) (msgs : List Publish)
    → Fails (λ a. a.1) (manager_subscribe (close p) topic qos sub).0
      × Fails (λ e. e) (manager_unsubscribe (close p) topic sub).0
      × Fails (λ a. a.0) (manager_subscribers (close p) topic qos)
      × Fails (λ e. e) (manager_retain (close p) msg).0
      × Fails (λ a. a.0) (manager_retained (close p) topic msgs)
unfolding manager_subscribe manager_unsubscribe manager_subscribers manager_retain manager_retained
close-Fails p topic qos sub msg msgs = (
  elim (Bool-cases (valid_qos qos)) [
    | inl t ↦ rw t (subscribe_nil-Fails topic sub)
    | inr t ↦ rw t (λ e. cc)
  ],
  on_nil-Fails (λ e. e) (λ e. e) topic (λ o. refl),
  elim (Bool-cases (valid_qos qos)) [
    | inl t ↦ rw t (on_nil-Fails (λ e. (e, [])) (λ a. a.0) topic (λ o. refl))
    | inr t ↦ rw t (λ e. cc)
  ],
  on_nil-Fails (λ e. e) (λ e. e) msg.topic_name (λ o. refl),
  on_nil-Fails (λ e. (e, msgs)) (λ a. a.0) topic (λ o. refl),
)

-- ===== src/Topics/Memory.antt =====
-- `memTopics` of topics/memtopics.go, but for `Close`. The locks are not modelled: each method is one
-- step.
pub mod Delivery
pub mod Calls
pub mod Retrieval
use magic_mqtt.Prelude.{
  ℕ, Bool, ◌||◌, Option, none, some, List, [], ◌∷◌, length, ◌==◌, if◌then◌else◌,
}
use magic_mqtt.Packet.Publish.{Publish}
use magic_mqtt.Topics.Level.{Level, Outcome, ok, err, stuck, invalid_qos, subscriber_nil}
use magic_mqtt.Topics.Value.{Value, nothing, pointer, func, string, number}
use magic_mqtt.Topics.Subscription.{SNode, Found, new_snode, sinsert, sremove, smatch}
use magic_mqtt.Topics.Retained.{RNode, Retrieved, new_rnode, rinsert_or_update, rremove, rmatch}

pub record MemTopics : Type 0 where
  pub sroot : SNode
  pub rroot : RNode

-- `newMemProvider`
abbrev pub new_mem : MemTopics
new_mem = record { sroot = new_snode; rroot = new_rnode }

-- `ValidQos`
abbrev pub valid_qos : ℕ → Bool
valid_qos qos = qos == 0 || qos == 1 || qos == 2

abbrev pub qos_failure : ℕ
qos_failure = 0x80

abbrev pub subscribed :
    MemTopics → ℕ → Outcome (Unit {0}) × SNode → (ℕ × Outcome (Unit {0})) × MemTopics
subscribed m qos (ok u, t) = ((qos, ok tt), record m { sroot = t })
subscribed m qos (err e, t) = ((qos_failure, err e), record m { sroot = t })
subscribed m qos (stuck, t) = ((qos_failure, stuck), record m { sroot = t })

abbrev pub subscribe_valid : MemTopics → List ℕ → ℕ → Value → (ℕ × Outcome (Unit {0})) × MemTopics
subscribe_valid m topic qos nothing = ((qos_failure, err subscriber_nil), m)
subscribe_valid m topic qos sub = subscribed m qos (sinsert (length topic) m.sroot topic qos sub)

-- The byte and the error of `Subscribe`. Its second test, `qos > QosExactlyOnce`, cannot pass.
unfoldable pub subscribe : MemTopics → List ℕ → ℕ → Value → (ℕ × Outcome (Unit {0})) × MemTopics
subscribe m topic qos sub =
    if valid_qos qos then subscribe_valid m topic qos sub else ((qos_failure, err invalid_qos), m)

unfoldable pub unsubscribe : MemTopics → List ℕ → Value → Outcome (Unit {0}) × MemTopics
unsubscribe m topic sub =
    let (r, t) = sremove (length topic) m.sroot topic sub in (r, record m { sroot = t })

-- `Subscribers` empties the lists that it is handed, and then fills them.
unfoldable pub subscribers : MemTopics → List ℕ → ℕ → Found
subscribers m topic qos =
    if valid_qos qos then smatch (length topic) m.sroot topic qos [] else (err invalid_qos, [])

-- An empty payload removes the retained message.
unfoldable pub retain : MemTopics → Publish → Outcome (Unit {0}) × MemTopics
retain m msg =
    let (r, t) =
      if length msg.payload == 0
      then rremove (length msg.topic_name) m.rroot msg.topic_name
      else rinsert_or_update (length msg.topic_name) m.rroot msg.topic_name msg in
    (r, record m { rroot = t })

unfoldable pub retained : MemTopics → List ℕ → List Publish → Retrieved
retained m topic msgs = rmatch (length topic) m.rroot topic msgs

-- ===== src/Tests/Sessions.antt =====
-- The theorems on common/msgtable.go and sessions/session.go at concrete tables and sessions.
use magic_mqtt.Prelude.{
  ℕ, List, ◌+◌, ◌≡◌, refl, true, false, none, [], ◌∷◌, take, ltb, ◌==◌, if◌then◌else◌, arith,
}
use magic_mqtt.Packet.Publish
use magic_mqtt.Packet.Publish.{Publish}
use magic_mqtt.Message.{publish}
use magic_mqtt.Common.MessageTable.{MessageTable, new_table, with_on_finish, new_id}
use magic_mqtt.Common.MessageTable.Ids.{calls, new_id_blocked, new_id-calls}
use magic_mqtt.Sessions.Session.{Session, new_session, push_offline_message, offline_messages}
use magic_mqtt.Sessions.Session.Offline.{
  Reached, start, pushed, Bounded, Reached-Bounded, write_all, offline_messages-write_all,
}
use magic_mqtt.Sessions.Group.{Group, new_group}
use magic_mqtt.Sessions.Group.Own.{group_get_own, get_or_new-get_or_new}
use magic_mqtt.Sessions.Group.Own

abbrev table : MessageTable (Unit {0})
table = record { id = 1; hash = λ k. none; has_on_finish = true; used = λ k. false }

-- The identifier that comes next is in use.
abbrev full : MessageTable (Unit {0})
full = record table { used = λ k. k == 1 }

abbrev first : Publish
first = record (Publish.spawn) { topic_name = b'a' ∷ []; payload = 1 ∷ [] }

abbrev second : Publish
second = record (Publish.spawn) { topic_name = b'b' ∷ []; payload = 2 ∷ [] }

new_id_blocked_example : ((new_id (calls 3 full)).0 ≡ 0) × (calls 3 full ≡ full)
new_id_blocked_example = new_id_blocked 3 full (omega arith) refl

new_id-calls_example :
    (new_id (calls 2 (new_table {O = Unit {0}}))).0 ≡ (if ltb 2 65534 then 2 + 1 else 0)
new_id-calls_example = new_id-calls (Unit {0}) 2

abbrev C : Type 0
C = Unit {0}

abbrev session : Session C
session = record {
  client_id = [];
  on_write = none;
  offline_queue = [];
  wait_ack = table;
  topics = [];
  offline_limit = 1;
  on_disconnect = none;
}

abbrev busy : Session C
busy = record session { wait_ack = full }

session-Reached : Reached session
unfolding new_session with_on_finish new_table
session-Reached = start 1

offline_messages-write_all_example :
    ((offline_messages (write_all (publish first ∷ publish second ∷ []) session)).0
      ≡ take 1 (publish first ∷ publish second ∷ []))
    × ((offline_messages (write_all (publish first ∷ publish second ∷ []) session)).1.offline_queue
        ≡ [])
offline_messages-write_all_example =
    offline_messages-write_all (publish first ∷ publish second ∷ []) session session-Reached refl

Reached-Bounded_example : Bounded (push_offline_message (publish first) session).1
Reached-Bounded_example =
    Reached-Bounded (push_offline_message (publish first) session).1
      (pushed session-Reached (publish first))

abbrev name : List ℕ
name = b'a' ∷ b'b' ∷ []

abbrev nobody : Group C
nobody = new_group (λ a. session) 0

nobody-Reached : Own.Reached nobody
unfolding new_group
nobody-Reached = Own.start (λ a. session) 0

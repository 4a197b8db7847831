-- ===== src/Sessions/Group.antt =====
-- sessions/group.go. The sessions are objects that the group and the connections share: a heap
-- holds them, a function of the address with the next free one, and the group maps a client's name to an address. Each method is one step, as the lock
-- makes it; `GetOrNew` lets go of the lock between its two halves, and is one step here as well.
pub mod Own
use magic_mqtt.Prelude.{ℕ, ◌+◌, Bool, true, false, Option, none, some, List, []}
use magic_mqtt.Common.MessageTable.{update}
use magic_mqtt.Sessions.StringMap.{StringMap, lookup, store, delete}
use magic_mqtt.Sessions.Session.{Session, new_session}

-- `SessionGroup`, with the heap.
pub record Group (C : Type 0) : Type 0 where
  pub ss : StringMap ℕ
  pub heap : ℕ → Session C
  pub next : ℕ

module _ {C : Type 0} where
  -- `NewGroup`, with a heap that is there already.
  unfoldable pub new_group : (ℕ → Session C) → ℕ → Group C
  new_group heap next = record { ss = []; heap = heap; next = next }

  unfoldable pub group_remove : List ℕ → Group C → Group C
  group_remove client_id g = record g { ss = delete g.ss client_id }

  unfoldable pub group_get : List ℕ → Group C → Option ℕ
  group_get client_id g = lookup g.ss client_id

  unfoldable pub group_new : List ℕ → ℕ → Group C → ℕ × Group C
  group_new client_id offline_limit g = (
    g.next,
    record g {
      ss = store g.ss client_id g.next;
      heap = update g.heap g.next (new_session offline_limit);
      next = g.next + 1;
    },
  )

  abbrev pub found_or_new : Option ℕ → List ℕ → ℕ → Group C → (ℕ × Bool) × Group C
  found_or_new (some address) client_id offline_limit g = ((address, true), g)
  found_or_new none client_id offline_limit g =
      let (address, g') = group_new client_id offline_limit g in ((address, false), g')

  unfoldable pub group_get_or_new : List ℕ → ℕ → Group C → (ℕ × Bool) × Group C
  group_get_or_new client_id offline_limit g =
      found_or_new (lookup g.ss client_id) client_id offline_limit g

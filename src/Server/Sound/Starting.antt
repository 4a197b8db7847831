-- ===== src/Server/Sound/Starting.antt =====
-- The start of a connection in server/conBroker.go under the rules.
use magic_mqtt.Prelude.{ℕ, Option, none, some, List}
use magic_mqtt.Packet.Connect.{Connect}
use magic_mqtt.Sessions.Session.{
  new_session, with_client_id, with_on_disconnect, with_on_write, offline_messages,
}
use magic_mqtt.Sessions.Session.Offline
use magic_mqtt.Sessions.Group.{Group, group_new, found_or_new, group_get_or_new}
use magic_mqtt.Sessions.Group.Own
use magic_mqtt.Sessions.StringMap.{lookup}
use magic_mqtt.Server.State.{AuthError}
use magic_mqtt.Server.Action.{on_session, update_session, change_session}
use magic_mqtt.Server.Connect.{
  connack_of, auth_connect, in_group, disconnect_old, clean_start, resume, accept, answer_auth,
  on_connect, refusal,
}
use magic_mqtt.Server.Sound.Closing.{Keeps-disconnect_session}
use magic_mqtt.Server.Sound.{
  update-Reached, Keeps, Keeps-pure, Keeps-send, Keeps-on_session, Keeps-update_session,
  Keeps-change_session, keeps_rules,
}

-- A call of the group leads from a state of the group to one that calls lead to, and what it puts
-- on the heap is a session that calls lead to.
record Groups {X : Type 0} (f : Group ℕ → X × Group ℕ) : Type 0 where
  group : (g : Group ℕ) → Own.Reached g → Own.Reached (f g).1
  heap :
      (g : Group ℕ)
      → ((a : ℕ) → Offline.Reached (g.heap a))
      → (a : ℕ) → Offline.Reached ((f g).1.heap a)

group_new-heap :
    (client_id : List ℕ) (limit : ℕ) (g : Group ℕ)
    → ((a : ℕ) → Offline.Reached (g.heap a))
    → (a : ℕ) → Offline.Reached ((group_new client_id limit g).1.heap a)
unfolding group_new
group_new-heap client_id limit g h =
    update-Reached g.heap g.next (new_session limit) h (Offline.start limit)

group_new-Groups : (client_id : List ℕ) (limit : ℕ) → Groups (group_new client_id limit)
group_new-Groups client_id limit = record {
  group = λ g r. Own.created r client_id limit;
  heap = group_new-heap client_id limit;
}

group_get_or_new-Groups :
    (client_id : List ℕ) (limit : ℕ) → Groups (group_get_or_new client_id limit)
unfolding group_get_or_new
group_get_or_new-Groups client_id limit = record {
  group = λ g r. Own.fetched r client_id limit;
  heap = λ g h. by_entry g h (lookup g.ss client_id);
}
  where
    by_entry :
        (g : Group ℕ)
        → ((a : ℕ) → Offline.Reached (g.heap a))
        → (e : Option ℕ) (a : ℕ) → Offline.Reached ((found_or_new e client_id limit g).1.heap a)
    by_entry g h none = group_new-heap client_id limit g h
    by_entry g h (some n) = h

module _ {A : Type 0} where
  Keeps-in_group : {X : Type 0} (f : Group ℕ → X × Group ℕ) → Groups f → Keeps (in_group {A = A} f)
  Keeps-in_group f k = record {
    at = λ w s. record {
      topics_reached = s.topics_reached;
      sessions_reached = k.group w.sessions s.sessions_reached;
      each_reached = k.heap w.sessions s.each_reached;
    };
  }

  Keeps-disconnect_old : (a : Option ℕ) → Keeps (disconnect_old {A = A} a)
  Keeps-disconnect_old none = Keeps-pure tt
  Keeps-disconnect_old (some a) = Keeps-disconnect_session a

  Keeps-clean_start : (c : ℕ) (msg : Connect) → Keeps (clean_start {A = A} c msg)
  unfolding clean_start
  Keeps-clean_start c msg =
      search (keeps_rules, Keeps-disconnect_old, Keeps-in_group, group_new-Groups) depth 12

  Keeps-offline_messages : (a : ℕ) → Keeps (on_session {A = A} a offline_messages)
  Keeps-offline_messages a = Keeps-on_session a offline_messages (λ s r. Offline.emptied r)

  Keeps-resume : (c : ℕ) (msg : Connect) → Keeps (resume {A = A} c msg)
  unfolding resume
  Keeps-resume c msg =
      search
        (
          keeps_rules, Keeps-disconnect_session, Keeps-in_group, group_get_or_new-Groups,
          Keeps-offline_messages,
        )
        depth 14

  Keeps-bound_on_disconnect :
      (a c : ℕ) → Keeps (update_session {A = A} a (with_on_disconnect (some c)))
  Keeps-bound_on_disconnect a c =
      Keeps-update_session a (with_on_disconnect (some c))
        (λ s r. Offline.on_disconnect_set r (some c))

  Keeps-bound_on_write : (a c : ℕ) → Keeps (update_session {A = A} a (with_on_write (some c)))
  Keeps-bound_on_write a c =
      Keeps-update_session a (with_on_write (some c)) (λ s r. Offline.on_write_set r (some c))

  Keeps-named : (a : ℕ) (id : List ℕ) → Keeps (change_session {A = A} a (with_client_id id))
  Keeps-named a id = Keeps-change_session a (with_client_id id) (λ s r. Offline.named r id)

  Keeps-accept : (c : ℕ) (msg : Connect) → Keeps (accept {A = A} c msg)
  unfolding accept
  Keeps-accept c msg =
      search
        (
          keeps_rules, Keeps-clean_start, Keeps-resume, Keeps-bound_on_disconnect,
          Keeps-bound_on_write, Keeps-named,
        )
        depth 14

  Keeps-answer_auth :
      (c : ℕ) (msg : Connect) (e : Option AuthError) → Keeps (answer_auth {A = A} c msg e)
  Keeps-answer_auth c msg none = Keeps-accept c msg
  Keeps-answer_auth c msg (some e) = Keeps-send c (connack_of (refusal e))

  Keeps-auth_connect : (msg : Connect) → Keeps (auth_connect {A = A} msg)
  Keeps-auth_connect msg = record {
    at = λ w s. record {
      topics_reached = s.topics_reached;
      sessions_reached = s.sessions_reached;
      each_reached = s.each_reached;
    };
  }

  pub Keeps-on_connect : (c : ℕ) (msg : Connect) → Keeps (on_connect {A = A} c msg)
  unfolding on_connect
  Keeps-on_connect c msg = search (keeps_rules, Keeps-auth_connect, Keeps-answer_auth) depth 8

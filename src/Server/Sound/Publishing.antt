-- ===== src/Server/Sound/Publishing.antt =====
-- Publications in server/conBroker.go under the rules.
use magic_mqtt.Prelude.{ℕ, Option, none, some}
use magic_mqtt.Packet.Publish.{Publish}
use magic_mqtt.Packet.Connect.{Will}
use magic_mqtt.Message.{Message}
use magic_mqtt.Topics.Level.{ok, err, stuck}
use magic_mqtt.Topics.Value.{Value, nothing, pointer, func, string, number}
use magic_mqtt.Topics.Subscription.{Found}
use magic_mqtt.Topics.Memory.Calls
use magic_mqtt.Sessions.Session.{Write, answered, passed, write_message}
use magic_mqtt.Sessions.Session.Offline
use magic_mqtt.Server.Action.{modify, ◌>>=◌, ◌>>◌, with_session, lock, unlock}
use magic_mqtt.Server.Publish.{
  written, session_write, write_found, distribute, distribute_all, send_publish_message,
  keep_retained, proc_publish, on_publish, send_will, will_publish,
}
use magic_mqtt.Server.Sound.{
  Keeps, Keeps-bind, Keeps-pure, Keeps-send, Keeps-with_session, Keeps-lock, Keeps-unlock,
  keeps_rules,
}

module _ {A : Type 0} where
  Keeps-session_write : (a : ℕ) (msg : Message) → Keeps (session_write {A = A} a msg)
  unfolding session_write
  Keeps-session_write a msg =
      Keeps-bind (lock a)
        (λ _. with_session a (write_message msg) >>= λ r. written msg r >> unlock a) (Keeps-lock a)
        (λ _.
          Keeps-bind (with_session a (write_message msg)) (λ r. written msg r >> unlock a)
            (Keeps-with_session a (write_message msg) (λ s r. Offline.written r msg))
            (λ r. Keeps-bind (written msg r) (λ _. unlock a) (rest r) (λ _. Keeps-unlock a)))
    where
      rest : (r : Write ℕ) → Keeps (written {A = A} msg r)
      rest (answered e) = Keeps-pure tt
      rest (passed c) = Keeps-send c msg

  Keeps-write_found : (msg : Message) (a : Option ℕ) → Keeps (write_found {A = A} msg a)
  Keeps-write_found msg none = Keeps-pure tt
  Keeps-write_found msg (some a) = Keeps-session_write a msg

  Keeps-distribute : (msg : Message) (v : Value) → Keeps (distribute {A = A} msg v)
  unfolding distribute
  Keeps-distribute msg (pointer p) = search (keeps_rules, Keeps-write_found)
  Keeps-distribute msg nothing = Keeps-pure tt
  Keeps-distribute msg (func f) = Keeps-pure tt
  Keeps-distribute msg (string x) = Keeps-pure tt
  Keeps-distribute msg (number k n) = Keeps-pure tt

  Keeps-distribute_all : (msg : Message) (f : Found) → Keeps (distribute_all {A = A} msg f)
  Keeps-distribute_all msg (ok u, subs) = search (keeps_rules, Keeps-distribute)
  Keeps-distribute_all msg (err e, subs) = Keeps-pure tt
  Keeps-distribute_all msg (stuck, subs) = Keeps-pure tt

  Keeps-send_publish_message : (msg : Publish) → Keeps (send_publish_message {A = A} msg)
  unfolding send_publish_message
  Keeps-send_publish_message msg = search (keeps_rules, Keeps-distribute_all)

  Keeps-keep_retained : (msg : Publish) → Keeps (modify {A = A} (keep_retained msg))
  Keeps-keep_retained msg = record {
    at = λ w s. record {
      topics_reached = Calls.after_retain s.topics_reached msg;
      sessions_reached = s.sessions_reached;
      each_reached = s.each_reached;
    };
  }

  Keeps-proc_publish : (msg : Publish) → Keeps (proc_publish {A = A} msg)
  unfolding proc_publish
  Keeps-proc_publish msg = search (keeps_rules, Keeps-send_publish_message, Keeps-keep_retained)

  pub Keeps-on_publish : (c : ℕ) (msg : Publish) → Keeps (on_publish {A = A} c msg)
  unfolding on_publish
  Keeps-on_publish c msg = search (keeps_rules, Keeps-proc_publish)

  pub Keeps-send_will : (will : Option Will) → Keeps (send_will {A = A} will)
  unfolding send_will
  Keeps-send_will none = Keeps-pure tt
  Keeps-send_will (some will) = Keeps-send_publish_message (will_publish will)

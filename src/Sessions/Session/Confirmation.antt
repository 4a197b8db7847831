-- ===== src/Sessions/Session/Confirmation.antt =====
-- The publications of sessions/session.go that wait for an answer.
use magic_mqtt.Prelude.{ℕ, ◌<◌, ◌≡◌, refl, true, false, none, some, ==_refl}
use magic_mqtt.Message.{publish}
use magic_mqtt.Packet.Publish.{Publish}
use magic_mqtt.Common.MessageTable.{register, register2, get_message, unref}
use magic_mqtt.Common.MessageTable.Ids.{new_id_free, new_id_used}
use magic_mqtt.Sessions.Session.{Session, register_message, unref_message}

-- The message with the identifier that it is registered under.
abbrev pub numbered : Publish → ℕ → Publish
numbered msg id = record msg { packet_identifier = id }

module _ {C : Type 0} where
  -- A publication is registered under the identifier written into it, when the next one is free and
  -- below 65535; its confirmation removes it and frees the identifier.
  pub unref_message-register_message :
      (s : Session C) (msg : Publish)
      → s.wait_ack.id < 65535
      → s.wait_ack.used s.wait_ack.id ≡ false
      → ((register_message msg s).0 ≡ s.wait_ack.id)
        × ((register_message msg s).1 ≡ numbered msg s.wait_ack.id)
        × (get_message (register_message msg s).2.wait_ack s.wait_ack.id
            ≡ some (publish (numbered msg s.wait_ack.id)))
        × (get_message
              (unref_message s.wait_ack.id (register_message msg s).2).wait_ack
              s.wait_ack.id
            ≡ none)
        × ((unref_message s.wait_ack.id (register_message msg s).2).wait_ack.used s.wait_ack.id
            ≡ false)
  unfolding register_message unref_message get_message register register2 unref
  unref_message-register_message s msg b f =
      let self = ==_refl s.wait_ack.id in
      rw (new_id_free s.wait_ack b f, self) (refl, refl, refl, rw self refl, rw self refl)

  -- While the next identifier, below 65535, is in use, two publications that are registered one
  -- after the other both get the identifier 0, and the second takes the place of the first.
  pub register_message_twice :
      (s : Session C) (a b : Publish)
      → s.wait_ack.id < 65535
      → s.wait_ack.used s.wait_ack.id ≡ true
      → ((register_message a s).0 ≡ 0)
        × ((register_message b (register_message a s).2).0 ≡ 0)
        × (get_message (register_message b (register_message a s).2).2.wait_ack 0
            ≡ some (publish (numbered b 0)))
  unfolding register_message get_message register register2
  register_message_twice s a b low used =
      let first = new_id_used s.wait_ack low used in
      let t = register s.wait_ack 0 (publish (numbered a 0)) tt in
      rw (first, new_id_used t low used) (refl, refl, refl)

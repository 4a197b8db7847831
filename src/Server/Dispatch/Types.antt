-- ===== src/Server/Dispatch/Types.antt =====
-- The switch of `ParseMessage` of server/conBroker.go as it is written: over the type that the header
-- of the message says, with a type assertion in each case.
use magic_mqtt.Prelude.{ℕ, ◌≡◌, refl, subst, List, ◌==◌, if◌then◌else◌}
use magic_mqtt.Encoding.PType
use magic_mqtt.Encoding.PType.{PType}
use magic_mqtt.Encoding.Stream.{ok}
use magic_mqtt.Message.{
  Message, Runtime, connect, connack, publish, disconnect, subscribe, suback, unsubscribe, unsuback,
  pingresp, pingreq, puback, pubrec, pubrel, pubcomp, get_type, kind, parse,
}
use magic_mqtt.Message.Types.{parse-kind}
use magic_mqtt.Server.Action.{Action, pure, panics}
use magic_mqtt.Server.Publish.{on_publish}
use magic_mqtt.Server.Close.{on_disconnect}
use magic_mqtt.Server.Connect.{on_connect}
use magic_mqtt.Server.Subscribe.{on_subscribe, on_unsubscribe}
use magic_mqtt.Server.Dispatch.{on_puback, on_pubrec, on_pubrel, on_pubcomp, on_pingresp, handle}

module _ {A : Type 0} (c : ℕ) where
  -- A type assertion and its handler; a value of another type panics.
  abbrev pub assert_publish : Message → Action A (Unit {0})
  assert_publish (publish m) = on_publish c m
  assert_publish _ = panics

  abbrev pub assert_puback : Message → Action A (Unit {0})
  assert_puback (puback m) = on_puback c m.packet_identifier
  assert_puback _ = panics

  abbrev pub assert_pubrec : Message → Action A (Unit {0})
  assert_pubrec (pubrec m) = on_pubrec c m
  assert_pubrec _ = panics

  abbrev pub assert_pubrel : Message → Action A (Unit {0})
  assert_pubrel (pubrel m) = on_pubrel c m
  assert_pubrel _ = panics

  abbrev pub assert_pubcomp : Message → Action A (Unit {0})
  assert_pubcomp (pubcomp m) = on_pubcomp c m
  assert_pubcomp _ = panics

  abbrev pub assert_subscribe : Message → Action A (Unit {0})
  assert_subscribe (subscribe m) = on_subscribe c m
  assert_subscribe _ = panics

  abbrev pub assert_unsubscribe : Message → Action A (Unit {0})
  assert_unsubscribe (unsubscribe m) = on_unsubscribe c m
  assert_unsubscribe _ = panics

  abbrev pub assert_connect : Message → Action A (Unit {0})
  assert_connect (connect m) = on_connect c m
  assert_connect _ = panics

  abbrev pub assert_disconnect : Message → Action A (Unit {0})
  assert_disconnect (disconnect m) = on_disconnect c
  assert_disconnect _ = panics

  abbrev pub assert_pingresp : Message → Action A (Unit {0})
  assert_pingresp (pingresp m) = on_pingresp c
  assert_pingresp _ = panics

  abbrev pub switch_on : PType → Message → Action A (Unit {0})
  switch_on t msg =
      if t == PType.publish
      then assert_publish msg
      else if t == PType.puback
      then assert_puback msg
      else if t == PType.pubrec
      then assert_pubrec msg
      else if t == PType.pubrel
      then assert_pubrel msg
      else if t == PType.pubcomp
      then assert_pubcomp msg
      else if t == PType.subscribe
      then assert_subscribe msg
      else if t == PType.unsubscribe
      then assert_unsubscribe msg
      else if t == PType.connect
      then assert_connect msg
      else if t == PType.disconnect
      then assert_disconnect msg
      else if t == PType.pingresp
      then assert_pingresp msg
      else pure tt

  unfoldable pub switch : Message → Action A (Unit {0})
  switch msg = switch_on (get_type msg) msg

  switch_on-handle : (msg : Message) → switch_on (kind msg) msg ≡ handle c msg
  unfolding handle
  switch_on-handle (connect m) = refl
  switch_on-handle (connack m) = refl
  switch_on-handle (publish m) = refl
  switch_on-handle (disconnect m) = refl
  switch_on-handle (subscribe m) = refl
  switch_on-handle (suback m) = refl
  switch_on-handle (unsubscribe m) = refl
  switch_on-handle (unsuback m) = refl
  switch_on-handle (pingresp m) = refl
  switch_on-handle (pingreq m) = refl
  switch_on-handle (puback m) = refl
  switch_on-handle (pubrec m) = refl
  switch_on-handle (pubrel m) = refl
  switch_on-handle (pubcomp m) = refl

  -- A message that `Parse` made has the Go type that its header says, so no assertion of the switch
  -- panics: the switch calls the handler of the message's type.
  pub switch-handle :
      (rt : Runtime) (max_len : ℕ) (r : List ℕ) (msg : Message)
      → (parse rt max_len r).0 ≡ ok msg
      → (kind msg ≡ get_type msg) × (switch msg ≡ handle c msg)
  unfolding switch
  switch-handle rt max_len r msg e =
      let k = parse-kind rt max_len r msg e in
      (k, subst (λ t. switch_on t msg ≡ handle c msg) k (switch_on-handle msg))

-- ===== src/Message/Types.antt =====
-- The header of a message that `Parse` of encoding/message/mqtt.go makes, and its Go type.
use magic_mqtt.Prelude.{ℕ, ◌≡◌, ◌∙◌, refl, sym, ap, true, List, ◌==◌, ==_iff}
use magic_mqtt.Encoding.PType
use magic_mqtt.Encoding.Stream.{Read, ok, ◌>>=◌, pure}
use magic_mqtt.Encoding.Stream.Yields.{
  Yields, Yields-then, Yields-pure, Yields-if, Yields-fail, yields_rules,
}
use magic_mqtt.Encoding.Header.{FixedHeader}
use magic_mqtt.Packet.Connect
use magic_mqtt.Packet.Connect.{Connect, Will}
use magic_mqtt.Packet.Connack
use magic_mqtt.Packet.Connack.{Connack}
use magic_mqtt.Packet.Publish
use magic_mqtt.Packet.Publish.{Publish}
use magic_mqtt.Packet.Subscribe
use magic_mqtt.Packet.Subscribe.{Subscribe}
use magic_mqtt.Packet.Suback
use magic_mqtt.Packet.Suback.{Suback}
use magic_mqtt.Packet.Unsubscribe
use magic_mqtt.Packet.Unsubscribe.{Unsubscribe}
use magic_mqtt.Packet.Unsuback
use magic_mqtt.Packet.Unsuback.{Unsuback}
use magic_mqtt.Packet.Puback
use magic_mqtt.Packet.Puback.{Puback}
use magic_mqtt.Packet.Pubrec
use magic_mqtt.Packet.Pubrec.{Pubrec}
use magic_mqtt.Packet.Pubrel
use magic_mqtt.Packet.Pubrel.{Pubrel}
use magic_mqtt.Packet.Pubcomp
use magic_mqtt.Packet.Pubcomp.{Pubcomp}
use magic_mqtt.Message.{
  Message, connect, connack, publish, subscribe, suback, unsubscribe, unsuback, puback, pubrec,
  pubrel, pubcomp, fixed_header, get_type, kind, Runtime, parse_body, parse,
}

-- A decoder leaves the header of its message.
module _ (h : FixedHeader) where
  connect_header :
      (slack : ℕ) (m : Connect)
      → m.fixed_header ≡ h
      → Yields (λ x. x.fixed_header ≡ h) (Connect.decode slack m)
  unfolding Connect.decode Connect.decode_rest
  connect_header slack m e = search (yields_rules, e) depth 30

  connack_header :
      (m : Connack) → m.fixed_header ≡ h → Yields (λ x. x.fixed_header ≡ h) (Connack.decode m)
  unfolding Connack.decode
  connack_header m e = search (yields_rules, e)

  publish_header :
      (pace : ℕ → ℕ) (m : Publish)
      → m.fixed_header ≡ h
      → Yields (λ x. x.fixed_header ≡ h) (Publish.decode pace m)
  unfolding Publish.decode Publish.decode_buffer
  publish_header pace m e = search (yields_rules, e) depth 30

  subscribe_header :
      (m : Subscribe) → m.fixed_header ≡ h → Yields (λ x. x.fixed_header ≡ h) (Subscribe.decode m)
  unfolding Subscribe.decode
  subscribe_header m e = search (yields_rules, e)

  suback_header :
      (m : Suback) → m.fixed_header ≡ h → Yields (λ x. x.fixed_header ≡ h) (Suback.decode m)
  unfolding Suback.decode
  suback_header m e = search (yields_rules, e)

  unsubscribe_header :
      (m : Unsubscribe)
      → m.fixed_header ≡ h
      → Yields (λ x. x.fixed_header ≡ h) (Unsubscribe.decode m)
  unfolding Unsubscribe.decode
  unsubscribe_header m e = search (yields_rules, e)

  unsuback_header :
      (m : Unsuback) → m.fixed_header ≡ h → Yields (λ x. x.fixed_header ≡ h) (Unsuback.decode m)
  unfolding Unsuback.decode
  unsuback_header m e = search (yields_rules, e)

  puback_header :
      (m : Puback) → m.fixed_header ≡ h → Yields (λ x. x.fixed_header ≡ h) (Puback.decode m)
  unfolding Puback.decode
  puback_header m e = search (yields_rules, e)

  pubrec_header :
      (m : Pubrec) → m.fixed_header ≡ h → Yields (λ x. x.fixed_header ≡ h) (Pubrec.decode m)
  unfolding Pubrec.decode
  pubrec_header m e = search (yields_rules, e)

  pubrel_header :
      (m : Pubrel) → m.fixed_header ≡ h → Yields (λ x. x.fixed_header ≡ h) (Pubrel.decode m)
  unfolding Pubrel.decode
  pubrel_header m e = search (yields_rules, e)

  pubcomp_header :
      (m : Pubcomp) → m.fixed_header ≡ h → Yields (λ x. x.fixed_header ≡ h) (Pubcomp.decode m)
  unfolding Pubcomp.decode
  pubcomp_header m e = search (yields_rules, e)

-- A message with a header, of the Go type that the header says.
abbrev IsTyped : FixedHeader → Message → Type 0
IsTyped h m = (kind m ≡ h.type) × (fixed_header m ≡ h)

module _ (h : FixedHeader) {X : Type 0} (header : X → FixedHeader) (wrap : X → Message) where
  wrap-IsTyped :
      (m : Read X)
      → Yields (λ x. header x ≡ h) m
      → ((x : X) → header x ≡ h → IsTyped h (wrap x))
      → Yields (IsTyped h) (m >>= λ x. pure (wrap x))
  wrap-IsTyped m y k =
      Yields-then (λ x. header x ≡ h) (IsTyped h) m (λ x. pure (wrap x)) y
        (λ x e. Yields-pure (IsTyped h) (wrap x) (k x e))

test_type : (h : FixedHeader) (k : ℕ) → (h.type == k) ≡ true → k ≡ h.type
test_type h k t = sym ((==_iff h.type k).0 t)

module _ (rt : Runtime) (h : FixedHeader) where
  parse_body-IsTyped : Yields (IsTyped h) (parse_body rt h)
  unfolding parse_body
  parse_body-IsTyped =
      Yields-if (IsTyped h) _ _ _
        (λ t.
          wrap-IsTyped h (λ x. x.fixed_header) connect _
            (connect_header h (rt.slack h.remaining_length) (Connect.of_header h) refl)
            (λ x e. (test_type h PType.connect t, e)))
        (Yields-if (IsTyped h) _ _ _
          (λ t.
            wrap-IsTyped h (λ x. x.fixed_header) connack _
              (connack_header h (record Connack.spawn { fixed_header = h }) refl)
              (λ x e. (test_type h PType.connack t, e)))
          (Yields-if (IsTyped h) _ _ _
            (λ t.
              wrap-IsTyped h (λ x. x.fixed_header) publish _
                (publish_header h rt.pace (record Publish.spawn { fixed_header = h }) refl)
                (λ x e. (test_type h PType.publish t, e)))
            (Yields-if (IsTyped h) _ _ _
              (λ t. Yields-pure (IsTyped h) _ (test_type h PType.disconnect t, refl))
              (Yields-if (IsTyped h) _ _ _
                (λ t.
                  wrap-IsTyped h (λ x. x.fixed_header) subscribe _
                    (subscribe_header h (record Subscribe.spawn { fixed_header = h }) refl)
                    (λ x e. (test_type h PType.subscribe t, e)))
                (Yields-if (IsTyped h) _ _ _
                  (λ t.
                    wrap-IsTyped h (λ x. x.fixed_header) suback _
                      (suback_header h (record Suback.spawn { fixed_header = h }) refl)
                      (λ x e. (test_type h PType.suback t, e)))
                  (Yields-if (IsTyped h) _ _ _
                    (λ t.
                      wrap-IsTyped h (λ x. x.fixed_header) unsubscribe _
                        (unsubscribe_header h (record Unsubscribe.spawn { fixed_header = h }) refl)
                        (λ x e. (test_type h PType.unsubscribe t, e)))
                    (Yields-if (IsTyped h) _ _ _
                      (λ t.
                        wrap-IsTyped h (λ x. x.fixed_header) unsuback _
                          (unsuback_header h (record Unsuback.spawn { fixed_header = h }) refl)
                          (λ x e. (test_type h PType.unsuback t, e)))
                      (Yields-if (IsTyped h) _ _ _
                        (λ t. Yields-pure (IsTyped h) _ (test_type h PType.pingresp t, refl))
                        (Yields-if (IsTyped h) _ _ _
                          (λ t. Yields-pure (IsTyped h) _ (test_type h PType.pingreq t, refl))
                          (Yields-if (IsTyped h) _ _ _
                            (λ t.
                              wrap-IsTyped h (λ x. x.fixed_header) puback _
                                (puback_header h (record Puback.spawn { fixed_header = h }) refl)
                                (λ x e. (test_type h PType.puback t, e)))
                            (Yields-if (IsTyped h) _ _ _
                              (λ t.
                                wrap-IsTyped h (λ x. x.fixed_header) pubrec _
                                  (pubrec_header h (record Pubrec.spawn { fixed_header = h }) refl)
                                  (λ x e. (test_type h PType.pubrec t, e)))
                              (Yields-if (IsTyped h) _ _ _
                                (λ t.
                                  wrap-IsTyped h (λ x. x.fixed_header) pubrel _
                                    (pubrel_header h (record Pubrel.spawn { fixed_header = h })
                                      refl)
                                    (λ x e. (test_type h PType.pubrel t, e)))
                                (Yields-if (IsTyped h) _ _ _
                                  (λ t.
                                    wrap-IsTyped h (λ x. x.fixed_header) pubcomp _
                                      (pubcomp_header h (record Pubcomp.spawn { fixed_header = h })
                                        refl)
                                      (λ x e. (test_type h PType.pubcomp t, e)))
                                  (Yields-fail (IsTyped h) _))))))))))))))

typed_parsed :
    (rt : Runtime) (h : FixedHeader) → Yields (λ m. kind m ≡ get_type m) (parse_body rt h)
typed_parsed rt h = record {
  at = λ r m e. let t = (parse_body-IsTyped rt h).at r m e in t.0 ∙ sym (ap (λ k. k.type) t.1);
}

typed : (rt : Runtime) (max_len : ℕ) → Yields (λ m. kind m ≡ get_type m) (parse rt max_len)
unfolding parse
typed rt max_len = search (yields_rules, typed_parsed)

-- A message that `Parse` makes has the Go type that its header says.
pub parse-kind :
    (rt : Runtime) (max_len : ℕ) (r : List ℕ) (m : Message)
    → (parse rt max_len r).0 ≡ ok m
    → kind m ≡ get_type m
parse-kind rt max_len r m e = (typed rt max_len).at r m e

-- ===== src/Common/MessageTable/Counts.antt =====
-- The counts of common/msgtable.go, and what `Unref` does to them.
use magic_mqtt.Prelude.{
  ℕ, zero, suc, ◌+◌, ◌-◌, ◌≤◌, ◌<◌, ◌≡◌, refl, ap, ◌∙◌, true, false, Option, none, some, ◌==◌,
  ==_refl, leb, leb-false, if◌then◌else◌, arith, Bool-cases, inl, inr,
}
use magic_mqtt.Message.{Message}
use magic_mqtt.Common.MessageTable.{
  MessageTable, Container, register, register2, get_message, message_of, unref,
}

module _ {O : Type 0} where
  -- What `unref` answers for the last reference.
  abbrev pub finished : MessageTable O → ℕ → Message → O → Option (ℕ × Message × O)
  finished t id msg o = if t.has_on_finish then some (id, msg, o) else none

  -- A message that is registered once and given back at once: the callback, if one is set, gets the
  -- identifier, the message and the opaque value; then the identifier has no message and is free,
  -- and every other one has what it had.
  pub register-unref :
      (t : MessageTable O) (id : ℕ) (msg : Message) (o : O) (k : ℕ)
      → ((unref (register t id msg o) id).0 ≡ finished t id msg o)
        × (get_message (unref (register t id msg o) id).1 k
            ≡ (if id == k then none else get_message t k))
        × ((unref (register t id msg o) id).1.used k ≡ (if id == k then false else t.used k))
  unfolding register register2 unref get_message
  register-unref t id msg o k =
      rw (==_refl id)
        (refl, elim (Bool-cases (id == k)) [ inl e ↦ rw e refl | inr e ↦ rw e refl ], refl)

  -- The table after some calls of `Unref`.
  unfoldable pub unrefs : ℕ → ℕ → MessageTable O → MessageTable O
  unrefs zero id t = t
  unrefs (suc n) id t = (unref (unrefs n id t) id).1

  abbrev held : Message → O → ℕ → Container O
  held msg o ref = record { message = msg; ref = ref; opaque = o }

  unref-held :
      (t : MessageTable O) (id ref : ℕ) (msg : Message) (o : O)
      → t.hash id ≡ some (held msg o ref)
      → 2 ≤ ref
      → ((unref t id).0 ≡ none)
        × ((unref t id).1.hash id ≡ some (held msg o (ref - 1)))
        × ((unref t id).1.has_on_finish ≡ t.has_on_finish)
  unfolding unref
  unref-held t id ref msg o e b = rw (e, leb-false ref 1 b, ==_refl id) (refl, refl, refl)

  unrefs-held :
      (n : ℕ) (t : MessageTable O) (id ref : ℕ) (msg : Message) (o : O)
      → t.hash id ≡ some (held msg o ref)
      → n < ref
      → ((unrefs n id t).hash id ≡ some (held msg o (ref - n)))
        × ((unrefs n id t).has_on_finish ≡ t.has_on_finish)
  unfolding unrefs
  unrefs-held zero t id ref msg o e b = (e ∙ ap (λ r. some (held msg o r)) (omega arith), refl)
  unrefs-held (suc n) t id ref msg o e b =
      let (now, same) = unrefs-held n t id ref msg o e (omega arith) in
      let (quiet, next, kept) = unref-held (unrefs n id t) id (ref - n) msg o now (omega arith) in
      (next ∙ ap (λ r. some (held msg o r)) (omega arith), kept ∙ same)

  -- Of the calls of `Unref` after a registration with a count, the message is found until the last
  -- one that the count allows, and only that one calls the callback.
  register2-unrefs :
      (t : MessageTable O) (id count n : ℕ) (msg : Message) (o : O)
      → n < count
      → (get_message (unrefs n id (register2 t id msg count o)) id ≡ some msg)
        × ((unref (unrefs n id (register2 t id msg count o)) id).0
            ≡ (if n + 1 == count then finished t id msg o else none))
  unfolding get_message
  register2-unrefs t id count n msg o b =
      let r = register2 t id msg count o in
      let there : r.hash id ≡ some (held msg o count) = unfold register2 in rw (==_refl id) refl in
      let (now, same) = unrefs-held n r id count msg o there b in
      let kept : (unrefs n id r).has_on_finish ≡ t.has_on_finish =
        same ∙ (unfold register2 in refl) in
      (
        ap message_of now,
        elim (Bool-cases (n + 1 == count)) [
          | inl e ↦
              let one : leb (count - n) 1 ≡ true = ground arith in
              unfold unref in rw (e, now, one, kept) refl
          | inr e ↦
              rw (e, (unref-held (unrefs n id r) id (count - n) msg o now (ground arith)).0) refl
        ],
      )

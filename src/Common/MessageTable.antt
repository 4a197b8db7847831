-- ===== src/Common/MessageTable.antt =====
-- common/msgtable.go. A Go map is a function of its key. The times of a container, which are never
-- read, and the locks are not modelled; a count is not negative. What a callback does is its
-- caller's: `unref` answers with the arguments that it is called with.
pub mod Ids
pub mod Counts
use magic_mqtt.Prelude.{
  ℕ, zero, suc, ◌+◌, ◌-◌, ◌%◌, Bool, true, false, Option, none, some, ◌==◌, leb, if◌then◌else◌,
}
use magic_mqtt.Message.{Message}

-- `slf[k] = v` on a map.
abbrev pub update {ℓ} : {A : Type ℓ} → (ℕ → A) → ℕ → A → ℕ → A
update f k v j = if k == j then v else f j

-- `MessageContainer`; the opaque value has the type `O`.
pub record Container (O : Type 0) : Type 0 where
  pub message : Message
  pub ref : ℕ
  pub opaque : O

pub record MessageTable (O : Type 0) : Type 0 where
  pub id : ℕ
  pub hash : ℕ → Option (Container O)
  pub has_on_finish : Bool
  pub used : ℕ → Bool

module _ {O : Type 0} where
  unfoldable pub new_table : MessageTable O
  new_table = record { id = 1; hash = λ k. none; has_on_finish = false; used = λ k. false }

  unfoldable pub with_on_finish : MessageTable O → MessageTable O
  with_on_finish t = record t { has_on_finish = true }

  abbrev pub wrapped : MessageTable O → MessageTable O
  wrapped t = if t.id == 65535 then record t { id = 0 } else t

  abbrev pub next_id : MessageTable O → ℕ × MessageTable O
  next_id t =
      if t.used t.id
      then (0, t)
      else (t.id, record t { used = update t.used t.id true; id = (t.id + 1) % 65536 })

  -- `NewID`. The loop ends after one turn either way: an identifier that is in use makes `ok` true.
  unfoldable pub new_id : MessageTable O → ℕ × MessageTable O
  new_id t = next_id (wrapped t)

  unfoldable pub clean : MessageTable O → MessageTable O
  clean t = record t { hash = λ k. none }

  abbrev pub message_of : Option (Container O) → Option Message
  message_of none = none
  message_of (some c) = some c.message

  -- `Get`; its error is `none`.
  unfoldable pub get_message : MessageTable O → ℕ → Option Message
  get_message t id = message_of (t.hash id)

  -- `Register2`
  unfoldable pub register2 : MessageTable O → ℕ → Message → ℕ → O → MessageTable O
  register2 t id msg count opaque =
      let c : Container O = record { message = msg; ref = count; opaque = opaque } in
      record t { hash = update t.hash id (some c) }

  -- `Register`
  unfoldable pub register : MessageTable O → ℕ → Message → O → MessageTable O
  register t id msg opaque = register2 t id msg 1 opaque

  -- The container is deleted, and the identifier is free again, with the last reference.
  abbrev pub unref_container :
      MessageTable O → ℕ → Option (Container O) → Option (ℕ × Message × O) × MessageTable O
  unref_container t id none = (none, t)
  unref_container t id (some c) =
      if leb c.ref 1
      then (
        if t.has_on_finish then some (id, c.message, c.opaque) else none,
        record t { used = update t.used id false; hash = update t.hash id none },
      )
      else (
        none,
        let left : Container O = record c { ref = c.ref - 1 } in
            record t { hash = update t.hash id (some left) },
      )

  -- `Unref`
  unfoldable pub unref : MessageTable O → ℕ → Option (ℕ × Message × O) × MessageTable O
  unref t id = unref_container t id (t.hash id)

  -- `Remove`; the identifier stays in use.
  unfoldable pub remove : MessageTable O → ℕ → MessageTable O
  remove t id = record t { hash = update t.hash id none }

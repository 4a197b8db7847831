-- ===== src/Common/MessageTable/Ids.antt =====
-- The identifiers that `NewID` of common/msgtable.go hands out.
use magic_mqtt.Prelude.{
  ℕ, zero, suc, ◌+◌, ◌%◌, ◌≤◌, ◌<◌, ◌≡◌, refl, ◌∙◌, ap, true, false, Bool-cases, inl, inr, ◌==◌,
  leb, ltb, leb→le, ltb→lt, ltb-false, ◌&&◌, ◌⊎◌, inl, inr, Bool-cases, leb→le, ltb, ltb→lt,
  ltb-false, if◌then◌else◌, arith,
}
use magic_mqtt.Common.MessageTable.{MessageTable, update, new_table, new_id}

≤-cases : (n k : ℕ) → (n ≤ k) ⊎ (k + 1 ≤ n)
≤-cases n k = elim (Bool-cases (leb n k)) [
  | inl e ↦ inl (leb→le n k e)
  | inr e ↦ inr (ground arith)
]

module _ {O : Type 0} where
  -- The table after some calls of `NewID`.
  unfoldable pub calls : ℕ → MessageTable O → MessageTable O
  calls zero t = t
  calls (suc n) t = (new_id (calls n t)).1

  pub new_id_free :
      (t : MessageTable O)
      → t.id < 65535
      → t.used t.id ≡ false
      → new_id t ≡ (t.id, record t { used = update t.used t.id true; id = t.id + 1 })
  unfolding new_id
  new_id_free t b f =
      let far : (t.id == 65535) ≡ false = ground arith in
      let same : (t.id + 1) % 65536 ≡ t.id + 1 = omega arith in rw (far, f, same) refl

  pub new_id_used : (t : MessageTable O) → t.id < 65535 → t.used t.id ≡ true → new_id t ≡ (0, t)
  unfolding new_id
  new_id_used t b f = let far : (t.id == 65535) ≡ false = ground arith in rw (far, f) refl

  new_id_wrap :
      (t : MessageTable O)
      → t.id ≡ 65535
      → t.used 0 ≡ false
      → new_id t ≡ (0, record t { used = update t.used 0 true; id = 1 })
  unfolding new_id
  new_id_wrap t b f = let at : (t.id == 65535) ≡ true = ground arith in rw (at, f) refl

  -- While the counter stands on an identifier that is free, below 65535, `NewID` hands it out, puts
  -- exactly that one to use, and moves the counter on by one.
  pub new_id_fresh :
      (t : MessageTable O) (k : ℕ)
      → t.id < 65535
      → t.used t.id ≡ false
      → ((new_id t).0 ≡ t.id)
        × ((new_id t).1.used k ≡ (if t.id == k then true else t.used k))
        × ((new_id t).1.id ≡ t.id + 1)
  new_id_fresh t k b f = rw (new_id_free t b f) (refl, refl, refl)

  calls_blocked : (n : ℕ) (t : MessageTable O) → t.id < 65535 → t.used t.id ≡ true → calls n t ≡ t
  unfolding calls
  calls_blocked zero t b f = refl
  calls_blocked (suc n) t b f =
      ap (λ (x : MessageTable O). (new_id x).1) (calls_blocked n t b f)
      ∙ ap (λ (p : ℕ × MessageTable O). p.1) (new_id_used t b f)

  -- Once the counter, below 65535, stands on an identifier that is in use, every further call of
  -- `NewID` answers 0 and moves nothing, whichever other identifiers are free.
  pub new_id_blocked :
      (n : ℕ) (t : MessageTable O)
      → t.id < 65535
      → t.used t.id ≡ true
      → ((new_id (calls n t)).0 ≡ 0) × (calls n t ≡ t)
  new_id_blocked n t b f =
      rw (calls_blocked n t b f) (ap (λ (p : ℕ × MessageTable O). p.0) (new_id_used t b f), refl)

module _ (O : Type 0) where
  abbrev table : ℕ → MessageTable O
  table n = calls n new_table

  calls_new :
      (n : ℕ)
      → n ≤ 65534
      → ((table n).id ≡ n + 1) × ((k : ℕ) → (table n).used k ≡ (leb 1 k && leb k n))
  unfolding calls new_table
  calls_new zero b = (refl, λ k. ground arith)
  calls_new (suc n) b =
      let (at, used) = calls_new n (omega arith) in
      let t = table n in
      let free : t.used t.id ≡ false = used t.id ∙ rw at (ground arith) in
      let next = λ (k : ℕ). new_id_fresh t k (rw at (omega arith)) free in
      ((next 0).2 ∙ rw at (omega arith), λ k. (next k).1 ∙ rw (at, used k) (ground arith))

  calls_wrapped : (n : ℕ) → 65535 ≤ n → ((table n).id ≡ 1) × ((table n).used 1 ≡ true)
  unfolding calls
  calls_wrapped zero b = absurd (omega arith)
  calls_wrapped (suc n) b = elim (≤-cases n 65534) [
    | inl low ↦
        let here : n ≡ 65534 = omega arith in
        let (at, used) = calls_new n low in
        let e = new_id_wrap (table n) (rw at (omega arith)) (used 0 ∙ ground arith) in
        (
          ap (λ (p : ℕ × MessageTable O). p.1.id) e,
          ap (λ (p : ℕ × MessageTable O). p.1.used 1) e ∙ (used 1 ∙ ground arith),
        )
    | inr high ↦
        let (at, used) = calls_wrapped n high in
        let e = new_id_used (table n) (rw at (omega arith)) (rw at used) in
        (
          ap (λ (p : ℕ × MessageTable O). p.1.id) e ∙ at,
          ap (λ (p : ℕ × MessageTable O). p.1.used 1) e ∙ used,
        )
  ]

  -- On a new table the calls of `NewID` answer 1, 2, 3 and so on up to 65534 when nothing is given
  -- back, and from then on 0 for ever.
  pub new_id-calls :
      (n : ℕ) → (new_id (calls n (new_table {O = O}))).0 ≡ (if ltb n 65534 then n + 1 else 0)
  new_id-calls n = elim (≤-cases n 65534) [
    | inl low ↦
        let (at, used) = calls_new n low in
        elim (Bool-cases (ltb n 65534)) [
          | inl below ↦
              let small = ltb→lt n 65534 below in
              let e =
                new_id_free (table n) (rw at (omega arith)) (rw at (used (n + 1) ∙ ground arith)) in
              rw below (ap (λ (p : ℕ × MessageTable O). p.0) e ∙ at)
          | inr edge ↦
              let here : n ≡ 65534 = ground arith in
              let e = new_id_wrap (table n) (rw at (omega arith)) (used 0 ∙ ground arith) in
              rw edge (ap (λ (p : ℕ × MessageTable O). p.0) e)
        ]
    | inr high ↦
        let (at, used) = calls_wrapped n high in
        let e = new_id_used (table n) (rw at (omega arith)) (rw at used) in
        rw (ltb-false n 65534 (omega arith)) (ap (λ (p : ℕ × MessageTable O). p.0) e)
  ]

-- ===== src/Sessions/Group/Own.antt =====
-- Which session of the heap a client of sessions/group.go has.
use magic_mqtt.Prelude.{
  ℕ, ◌<◌, ◌≡◌, refl, true, Option, Option-cases, none, some, inl, inr, List, arith,
}
use magic_mqtt.Topics.Level.{same_iff, same_refl}
use magic_mqtt.Sessions.StringMap.{lookup, lookup-store, lookup-delete}
use magic_mqtt.Sessions.Session.{Session}
use magic_mqtt.Sessions.Group.{
  Group, new_group, group_remove, group_get, group_new, found_or_new, group_get_or_new,
}

module _ {C : Type 0} where
  -- Calls on a new group, and what the connections do to the sessions of the heap meanwhile.
  pub data Reached : Group C → Type 0 where
    start : (heap : ℕ → Session C) (next : ℕ) → Reached (new_group heap next)
    removed : {g : Group C} → Reached g → (client_id : List ℕ) → Reached (group_remove client_id g)
    created :
        {g : Group C}
        → Reached g
        → (client_id : List ℕ) (limit : ℕ) → Reached (group_new client_id limit g).1
    fetched :
        {g : Group C}
        → Reached g
        → (client_id : List ℕ) (limit : ℕ) → Reached (group_get_or_new client_id limit g).1
    changed :
        {g : Group C} → Reached g → (heap : ℕ → Session C) → Reached (record g { heap = heap })

  pub record Owned (g : Group C) : Type 0 where
    pub in_heap : (a : List ℕ) (n : ℕ) → lookup g.ss a ≡ some n → n < g.next
    pub apart : (a b : List ℕ) (n : ℕ) → lookup g.ss a ≡ some n → lookup g.ss b ≡ some n → a ≡ b

  new-Owned :
      (g : Group C) (client_id : List ℕ) (limit : ℕ)
      → Owned g
      → Owned (group_new client_id limit g).1
  unfolding group_new
  new-Owned g client_id limit o = record {
    in_heap = λ a n e.
        let here = lookup-store g.ss client_id a (g.next) in ground (arith, here, o.in_heap a n, e);
    apart = λ a b n e f.
        let at_a = lookup-store g.ss client_id a (g.next) in
        let at_b = lookup-store g.ss client_id b (g.next) in
        ground (
          arith,
          at_a,
          at_b,
          o.in_heap a n,
          o.in_heap b n,
          o.apart a b n,
          same_iff client_id a,
          same_iff client_id b,
          e,
          f,
        );
  }

  remove-Owned : (g : Group C) (client_id : List ℕ) → Owned g → Owned (group_remove client_id g)
  unfolding group_remove
  remove-Owned g client_id o = record {
    in_heap = λ a n e. ground (arith, lookup-delete g.ss client_id a, o.in_heap a n, e);
    apart = λ a b n e f. ground (
      arith,
      lookup-delete g.ss client_id a,
      lookup-delete g.ss client_id b,
      o.apart a b n,
      e,
      f,
    );
  }

  get_or_new-Owned :
      (g : Group C) (client_id : List ℕ) (limit : ℕ)
      → Owned g
      → Owned (group_get_or_new client_id limit g).1
  unfolding group_get_or_new
  get_or_new-Owned g client_id limit o = by_entry (lookup g.ss client_id)
    where
      by_entry : (e : Option ℕ) → Owned (found_or_new e client_id limit g).1
      by_entry none = new-Owned g client_id limit o
      by_entry (some n) = o

  Reached-Owned : (g : Group C) → Reached g → Owned g
  unfolding new_group lookup
  Reached-Owned _ (start heap next) = record { in_heap = λ a n e. cc e; apart = λ a b n e f. cc e }
  Reached-Owned _ (removed {g = g} r client_id) = remove-Owned g client_id (Reached-Owned g r)
  Reached-Owned _ (created {g = g} r client_id limit) =
      new-Owned g client_id limit (Reached-Owned g r)
  Reached-Owned _ (fetched {g = g} r client_id limit) =
      get_or_new-Owned g client_id limit (Reached-Owned g r)
  Reached-Owned _ (changed {g = g} r heap) =
      let o = Reached-Owned g r in record { in_heap = o.in_heap; apart = o.apart }

  -- After any calls, the session that `Get` finds for a client is on the heap, and a client for whom
  -- it finds the same one is the same client.
  pub group_get_own :
      (g : Group C) (a b : List ℕ) (n : ℕ)
      → Reached g
      → group_get a g ≡ some n
      → group_get b g ≡ some n
      → (n < g.next) × (a ≡ b)
  unfolding group_get
  group_get_own g a b n r e f = let o = Reached-Owned g r in (o.in_heap a n e, o.apart a b n e f)

  -- A second `GetOrNew` for a client, with any limit, answers the session that the first answered, as
  -- one that was there, and changes nothing.
  pub get_or_new-get_or_new :
      (g : Group C) (client_id : List ℕ) (limit again : ℕ)
      → group_get_or_new client_id again (group_get_or_new client_id limit g).1
        ≡ (((group_get_or_new client_id limit g).0.0, true), (group_get_or_new client_id limit g).1)
  unfolding group_get_or_new group_new
  get_or_new-get_or_new g client_id limit again = elim (Option-cases (lookup g.ss client_id)) [
    | inl e ↦
        let here = lookup-store g.ss client_id client_id (g.next) in
        rw (e, here, same_refl client_id) refl
    | inr (n, e) ↦ rw (e, group_get_or_new, e) refl
  ]

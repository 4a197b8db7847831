-- ===== src/Server/Listener.antt =====
-- `MListener` and `MConn` of network/listener.go: the listener waits for its connections. A
-- connection is named by its place among those that were accepted; `true` says that its pointer to
-- the wait group is not nil.
use magic_mqtt.Prelude.{
  ℕ, zero, suc, ◌+◌, ◌-◌, ◌≡◌, ◌↔◌, refl, sym, ap, ◌∙◌, Bool, true, false, Bool-cases, inl, inr,
  List, [], ◌∷◌, ◌++◌, ◌==◌, ==_iff, if◌then◌else◌, arith,
}

pub record MListener : Type 0 where
  pub wg : ℕ
  pub counted : List Bool

unfoldable pub new_listener : MListener
new_listener = record { wg = 0; counted = [] }

-- `Accept`, where the listener inside gives a connection.
unfoldable pub accept_conn : MListener → MListener
accept_conn l = record { wg = l.wg + 1; counted = l.counted ++ true ∷ [] }

abbrev pub is_counted : List Bool → ℕ → Bool
is_counted [] i = false
is_counted (b ∷ bs) zero = b
is_counted (b ∷ bs) (suc i) = is_counted bs i

abbrev pub uncount : List Bool → ℕ → List Bool
uncount [] i = []
uncount (b ∷ bs) zero = false ∷ bs
uncount (b ∷ bs) (suc i) = b ∷ uncount bs i

-- `MConn.Close`: only the first call is told to the wait group.
unfoldable pub close_conn : ℕ → MListener → MListener
close_conn i l =
    if is_counted l.counted i then record { wg = l.wg - 1; counted = uncount l.counted i } else l

-- Whether `Wait` returns.
unfoldable pub wait_returns : MListener → Bool
wait_returns l = l.wg == 0

pub data Reached : MListener → Type 0 where
  start : Reached new_listener
  accepted : {l : MListener} → Reached l → Reached (accept_conn l)
  closed : {l : MListener} → Reached l → (i : ℕ) → Reached (close_conn i l)

unfoldable pub still_open : List Bool → ℕ
still_open [] = 0
still_open (b ∷ bs) = let n = still_open bs in if b then suc n else n

still_open-append : (bs : List Bool) → still_open (bs ++ true ∷ []) ≡ still_open bs + 1
unfolding still_open
still_open-append [] = omega arith
still_open-append (true ∷ bs) = omega (arith, still_open-append bs)
still_open-append (false ∷ bs) = still_open-append bs

still_open-uncount :
    (bs : List Bool) (i : ℕ)
    → is_counted bs i ≡ true
    → still_open bs ≡ suc (still_open (uncount bs i))
unfolding still_open
still_open-uncount [] i e = cc
still_open-uncount (b ∷ bs) zero e = rw e refl
still_open-uncount (true ∷ bs) (suc i) e = ap suc (still_open-uncount bs i e)
still_open-uncount (false ∷ bs) (suc i) e = still_open-uncount bs i e

Reached-still_open : (l : MListener) → Reached l → l.wg ≡ still_open l.counted
unfolding new_listener accept_conn close_conn
Reached-still_open _ start = unfold still_open in refl
Reached-still_open _ (accepted {l = l} r) =
    omega (arith, Reached-still_open l r, still_open-append l.counted)
Reached-still_open _ (closed {l = l} r i) = elim (Bool-cases (is_counted l.counted i)) [
  | inl e ↦ rw e (omega (arith, Reached-still_open l r, still_open-uncount l.counted i e))
  | inr e ↦ rw e (Reached-still_open l r)
]

none_open : (bs : List Bool) → still_open bs ≡ 0 → (i : ℕ) → is_counted bs i ≡ false
unfolding still_open
none_open [] e i = refl
none_open (true ∷ bs) e i = absurd (omega arith)
none_open (false ∷ bs) e zero = refl
none_open (false ∷ bs) e (suc i) = none_open bs e i

all_closed : (bs : List Bool) → ((i : ℕ) → is_counted bs i ≡ false) → still_open bs ≡ 0
unfolding still_open
all_closed [] h = refl
all_closed (b ∷ bs) h = rw (h 0) (all_closed bs (λ i. h (suc i)))

-- After any calls of `Accept` and of `Close` on its connections, however often on each, `Wait` of the
-- listener returns exactly where every connection that it accepted has been closed.
pub wait_returns_iff :
    (l : MListener)
    → Reached l
    → (wait_returns l ≡ true) ↔ ((i : ℕ) → is_counted l.counted i ≡ false)
unfolding wait_returns
wait_returns_iff l r =
    let same = Reached-still_open l r in
    (
      λ e. none_open l.counted (sym same ∙ (==_iff l.wg 0).0 e),
      λ h. (==_iff l.wg 0).1 (same ∙ all_closed l.counted h),
    )

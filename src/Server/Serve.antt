-- ===== src/Server/Serve.antt =====
-- The loop of `Serve` in server/tcpBroker.go. What each call of `Accept` gives is listed beforehand,
-- up to the shutdown; a delay is a number of milliseconds.
use magic_mqtt.Prelude.{
  ℕ, ◌≤◌, ◌*◌, ◌≡◌, refl, ap, subst, false, Bool-cases, inl, inr, List, [], ◌∷◌, ltb, if◌then◌else◌,
  arith,
}
use magic_mqtt.Server.State.{Board}
use magic_mqtt.Server.Action.{Action, Result, done, panic, blocked, bind, pure, ◌>>=◌, ◌>>◌}
use magic_mqtt.Server.Writer.{serve_conn}

-- A connection, with the bytes that its client is going to send, or the kinds of error that the loop
-- tells apart.
pub data Accepted : Type 0 where
  connection : List ℕ → Accepted
  temporary closed_listener failed : Accepted

-- `tmpDelay *= 5`, at most a second
unfoldable pub next_delay : ℕ → ℕ
next_delay d = let d' = d * 5 in if ltb 1000 d' then 1000 else d'

-- Whether the loop goes on, and its delay.
pub data Turn : Type 0 where
  again : ℕ → Turn
  ended : Turn

-- From a millisecond to a second.
abbrev pub IsDelay : ℕ → Type 0
IsDelay d = (1 ≤ d) × (d ≤ 1000)

next_delay-IsDelay : (d : ℕ) → IsDelay d → IsDelay (next_delay d)
unfolding next_delay
next_delay-IsDelay d (l, u) = elim (Bool-cases (ltb 1000 (d * 5))) [
  | inl e ↦ rw e (omega arith, omega arith)
  | inr e ↦ rw e (omega arith, ltb→le (d * 5) e)
]
  where
    ltb→le : (n : ℕ) → ltb 1000 n ≡ false → n ≤ 1000
    ltb→le n e = ground arith

abbrev delay_of : Result Turn → ℕ
delay_of (done (again d)) = d
delay_of _ = 0

module _ {A : Type 0} where
  abbrev pub serve_turn : Accepted → ℕ → Action A Turn
  serve_turn (connection incoming) d = serve_conn incoming >> pure (again 1)
  serve_turn temporary d = pure (again (next_delay d))
  serve_turn closed_listener d = pure (again d)
  serve_turn failed d = pure ended

  abbrev pub serve_on : (ℕ → Action A Turn) → Turn → Action A Turn
  serve_on rest (again d) = rest d
  serve_on rest ended = pure ended

  unfoldable pub serve : List Accepted → ℕ → Action A Turn
  serve [] d = pure (again d)
  serve (x ∷ xs) d = serve_turn x d >>= serve_on (serve xs)

  then_again :
      (q : Result (Unit {0}) × Board A) (d : ℕ)
      → (bind q (λ _. pure (again 1))).0 ≡ done (again d)
      → IsDelay d
  then_again (done u, w) d e = subst IsDelay (ap delay_of e) (omega arith, omega arith)
  then_again (panic, w) d e = cc
  then_again (blocked, w) d e = cc

  bind-again :
      (P : ℕ → Type 0) (p : Result Turn × Board A) (rest : ℕ → Action A Turn) (e : ℕ)
      → ((d : ℕ) → p.0 ≡ done (again d) → P d)
      → ((d : ℕ) (v : Board A) → P d → (rest d v).0 ≡ done (again e) → P e)
      → (bind p (serve_on rest)).0 ≡ done (again e)
      → P e
  bind-again P (done (again d), w) rest e h k q = k d w (h d refl) q
  bind-again P (done ended, w) rest e h k q = cc
  bind-again P (panic, w) rest e h k q = cc
  bind-again P (blocked, w) rest e h k q = cc

  -- From a delay of one millisecond to a second, the loop has such a delay as long as it goes on,
  -- whatever the calls of `Accept` give.
  pub serve-IsDelay :
      (xs : List Accepted) (d e : ℕ) (w : Board A)
      → IsDelay d
      → (serve xs d w).0 ≡ done (again e)
      → IsDelay e
  unfolding serve
  serve-IsDelay [] d e w l q = subst IsDelay (ap delay_of q) l
  serve-IsDelay (connection incoming ∷ xs) d e w l q =
      bind-again IsDelay ((serve_conn incoming >> pure (again 1)) w) (serve xs) e
        (λ b h. then_again (serve_conn incoming w) b h) (λ b v k h. serve-IsDelay xs b e v k h) q
  serve-IsDelay (temporary ∷ xs) d e w l q =
      serve-IsDelay xs (next_delay d) e w (next_delay-IsDelay d l) q
  serve-IsDelay (closed_listener ∷ xs) d e w l q = serve-IsDelay xs d e w l q
  serve-IsDelay (failed ∷ xs) d e w l q = cc

-- ===== src/Server/Writer/Start.antt =====
-- How a connection starts: `HandleConnection` of server/handler.go.
use magic_mqtt.Prelude.{ℕ, ◌≡◌, refl, Bool-cases, inl, inr, List, ==_refl, ltb, if◌then◌else◌}
use magic_mqtt.Server.State.{Board, new_broker_conn}
use magic_mqtt.Server.Action.{done, panic}
use magic_mqtt.Server.Writer.{handle_connection, serve_conn}

-- A connection that the broker accepts starts where the keep-alive of the settings is above 0; else
-- the goroutine that writes ends the process with a panic.
pub serve_conn-result :
    {A : Type 0} (incoming : List ℕ) (w : Board A)
    → (serve_conn incoming w).0 ≡ (if ltb 0 w.deploy.keepalive then done tt else panic)
unfolding serve_conn handle_connection new_broker_conn
serve_conn-result incoming w = elim (Bool-cases (ltb 0 w.deploy.keepalive)) [
  | inl e ↦ rw (==_refl w.next_conn, e) refl
  | inr e ↦ rw (==_refl w.next_conn, e) refl
]

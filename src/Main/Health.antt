-- ===== src/Main/Health.antt =====
-- What the health endpoint of src/main.cpp says of the circuit breaker.
use mathlib.Core.Option
use finam_tradebot.Prelude.{◌≡◌, Bool, ◌||◌, Bool-cases, inl, inr, none, some, take, if◌then◌else◌}
use finam_tradebot.Prelude.Text.{Text, text, contains}
use finam_tradebot.Core.HealthServer.{received, handle_request}
use finam_tradebot.Double.{Double}
use finam_tradebot.Risk.RiskManager.{RiskManager}
use finam_tradebot.Main.{health_status}

-- The request names one of the two pages, in the bytes that are read.
abbrev pub asks : Text → Bool
asks sent =
    contains (text "GET /health") (received sent) || contains (text "GET /metrics") (received sent)

module _ {W : Type 0} ⦃d : Double W⦄ where
  -- A request that names neither page gets no answer. Any other is answered, with the status 503 if
  -- the circuit breaker has tripped, and with 200 if not.
  pub health_lem :
      (risk : RiskManager W) (sent : Text)
      → Option.map (take 12) (handle_request (health_status risk) sent) ≡ (
          if asks sent
          then some (if risk.tripped then text "HTTP/1.1 503" else text "HTTP/1.1 200")
          else none)
  unfolding handle_request health_status text
  health_lem risk sent = elim (Bool-cases (contains (text "GET /health") (received sent))) [
    | inl health ↦ elim (Bool-cases risk.tripped) [
      | inl tripped ↦ rw (health, tripped)
      | inr fine ↦ rw (health, fine)
    ]
    | inr other ↦ elim (Bool-cases (contains (text "GET /metrics") (received sent))) [
      | inl metrics ↦ elim (Bool-cases risk.tripped) [
        | inl tripped ↦ rw (other, metrics, tripped)
        | inr fine ↦ rw (other, metrics, fine)
      ]
      | inr neither ↦ rw (other, neither)
    ]
  ]

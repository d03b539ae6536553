-- ===== src/Core/HealthServer.antt =====
-- src/core/health_server.hpp: the answer to a request.
pub mod Loop
use finam_tradebot.Prelude.{
  ℕ, Bool, not, ◌&&◌, Option, none, some, [], ◌∷◌, ◌++◌, ◌==◌, if◌then◌else◌, take, length,
}
use finam_tradebot.Prelude.Text.{Text, text, contains, decimal}
use finam_tradebot.Double.{Double}

pub record HealthStatus (W : Type 0) : Type 0 where
  pub ok : Bool
  pub active_symbol : Text
  pub daily_pnl : W
  pub liquid_value : W
  pub circuit_breaker : Bool

-- A `std::string_view` of a buffer that ends at its first zero byte.
abbrev until_zero : Text → Text
until_zero [] = []
until_zero (c ∷ s) = let rest = until_zero s in if c == 0 then [] else c ∷ rest

-- The first 255 bytes that the client has sent.
unfoldable pub received : Text → Text
received sent = until_zero (take 255 sent)

abbrev flag : Bool → ℕ
flag b = if b then 1 else 0

module _ {W : Type 0} ⦃d : Double W⦄ where
  unfoldable pub build_body : HealthStatus W → Bool → Text
  build_body st metrics =
      if metrics
      then text "# HELP tradebot_ok Bot health (1=ok, 0=tripped)\ntradebot_ok "
        ++ (decimal (flag st.ok)
            ++ (text "\n# HELP tradebot_daily_pnl Daily PnL in ticks\ntradebot_daily_pnl "
                ++ (d.to_text st.daily_pnl
                    ++ (text
                          "\n# HELP tradebot_liquid_value Net liquidation value\ntradebot_liquid_value "
                        ++ (d.to_text st.liquid_value
                            ++ (text
                                  "\n# HELP tradebot_circuit_breaker Circuit breaker (1=tripped)\ntradebot_circuit_breaker "
                                ++ (decimal (flag st.circuit_breaker) ++ text "\n")))))))
      else (if st.ok then text "ok" else text "circuit_breaker_tripped")

  -- `none` is a request that gets no answer.
  unfoldable pub handle_request : HealthStatus W → Text → Option Text
  handle_request st sent =
      let req = received sent in
      let is_metrics = contains (text "GET /metrics") req in
      let is_health = contains (text "GET /health") req in
      let body = build_body st is_metrics in
      if not is_health && not is_metrics
      then none
      else some (
          text "HTTP/1.1 "
          ++ ((if st.ok then text "200 OK" else text "503 Service Unavailable")
              ++ (text "\r\nContent-Type: text/plain\r\nContent-Length: "
                  ++ (decimal (length body) ++ (text "\r\nConnection: close\r\n\r\n" ++ body)))))

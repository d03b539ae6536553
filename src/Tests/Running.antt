-- ===== src/Tests/Running.antt =====
-- Runs of the strategy runner.
use finam_tradebot.Prelude.{◌*◌, arith, ◌≡◌, refl, true, some, List, [], ◌∷◌, if◌then◌else◌}
use finam_tradebot.Prelude.Int.{pos, negsuc, ltb_ℤ, ◌+ℤ◌, ◌-ℤ◌, abs}
use finam_tradebot.Prelude.Text.{Text, text, text_eq}
use finam_tradebot.Core.Types.{
  second, err, Error, ErrorCode, Signal, OrderSide, Direction, symbol_eq,
}
use finam_tradebot.Double.Fixed.{Fixed, fixed_double}
use finam_tradebot.Risk.RiskManager
use finam_tradebot.Risk.RiskManager.{RiskManager, check}
use finam_tradebot.Strategy.SessionContext
use finam_tradebot.Strategy.SessionContext.{to_utc_minutes}
use finam_tradebot.Strategy.Confluence
use finam_tradebot.Strategy.Confluence.{Confluence, close_signal, on_order_update}
use finam_tradebot.Strategy.Runner.{
  Runner, Env, MdEvent, book, trade, quote, rollover, handle_signal, request_of, order_side,
  dispatch_rollover, drain, dispatch, order_update, on_subscribed_bar,
}
use finam_tradebot.Strategy.Runner.Close.{close_request, close_fill}
use finam_tradebot.Strategy.Runner.Position.{
  Happening, popped, subscribed, changes, all_happen, all_happen-position, opening_forgets,
}
use finam_tradebot.Strategy.Runner.Blocked.{opening_quote_blocks}
use finam_tradebot.Strategy.OfiTypes.{BookLevelEvent, TradeEvent}
use finam_tradebot.Strategy.Runner.Queue
use finam_tradebot.Strategy.Runner.Queue.{Action, incoming, drain_round, act_all}
use finam_tradebot.Strategy.Runner.Queue.Delivery.{delivered, act_all-drain}
use finam_tradebot.Strategy.Runner.Rollover.{rollover_deaf}
use finam_tradebot.Tests.Fixtures.{
  buy_trade, si_june, si_september, num, bullish, account, env, risk, runner, config, bar_of,
  quote_of, fill_of,
}

abbrev reason : Text
reason = text "daily loss limit hit"

abbrev tripped : Runner Fixed
tripped = record runner { risk = some (record risk { tripped = true; trip_reason = reason }) }

abbrev events : List (Env Fixed × MdEvent Fixed)
events = (env, quote (quote_of si_june 60 1)) ∷ (env, rollover si_september) ∷ []

-- Short by two.
abbrev short : Runner Fixed
short = record runner { strategy = record bullish { position = negsuc 1; entry_price = num 100 } }

close_fill_example :
    (handle_signal env (close_signal (text "SL") short.strategy) short
      ≡ (short, close_request env (text "SL") short.strategy ∷ []))
    × ((close_request env (text "SL") short.strategy).side ≡ OrderSide.sell)
    × ((on_order_update (fill_of OrderSide.sell 130 2) short.strategy).position ≡ (
        if ltb_ℤ short.strategy.position (pos 0)
        then short.strategy.position +ℤ short.strategy.position
        else pos 0))
unfolding request_of close_signal order_side abs ◌-ℤ◌
close_fill_example =
    close_fill env (text "SL") short (fill_of OrderSide.sell 130 2) (refl, refl, refl)

-- Short by four afterwards.
doubled : (on_order_update (fill_of OrderSide.sell 130 2) short.strategy).position ≡ negsuc 3
unfolding on_order_update ◌-ℤ◌
doubled = refl

abbrev september : List (Env Fixed × MdEvent Fixed)
september = (env, quote (quote_of si_september 100 1)) ∷ []

rollover_deaf_example :
    let r₁ = dispatch_rollover env si_september runner in
    (r₁.active_symbol ≡ si_september)
    × ((drain september r₁).1 ≡ [])
    × (on_subscribed_bar (bar_of si_september 110 90 2) (drain september r₁).0
        ≡ (drain september r₁).0)
unfolding Confluence.make symbol_eq text_eq text
rollover_deaf_example =
    rollover_deaf si_june env si_september september (bar_of si_september 110 90 2) runner refl tt
      (refl, tt) refl

abbrev loss : Error
loss = record { code = ErrorCode.daily_loss_limit_hit; message = reason }

abbrev buy : Signal Fixed
buy = record (close_signal (text "in") bullish) { direction = Direction.buy; quantity = pos 1 }

over_the_limit : check env.assets env.now (request_of account buy) risk ≡ err loss
unfolding check RiskManager.check_circuit_breaker RiskManager.check_daily_loss RiskManager.loss_pct
    RiskManager.default_config text
over_the_limit = refl

-- A second quote waits while the first is handled.
abbrev actions : List (Action Fixed)
actions =
    incoming (quote (quote_of si_june 60 1))
    ∷ incoming (quote (quote_of si_june 61 2))
    ∷ drain_round env
    ∷ drain_round env
    ∷ drain_round env
    ∷ []

act_all-drain_example :
    (let s = act_all actions (Queue.make (rollover si_june) runner) in
      let (r', sent) = drain (delivered actions []) runner in (s.runner ≡ r') × (s.sent ≡ sent))
act_all-drain_example = act_all-drain (rollover si_june) actions runner

-- A quote and a bar in the afternoon, a buy of two and a sell of three.
abbrev afternoon : List (Happening Fixed)
afternoon =
    popped env (quote (quote_of si_june 60 (57_600 * second)))
    ∷ popped env (order_update (fill_of OrderSide.buy 100 2))
    ∷ subscribed (bar_of si_june 110 90 (57_700 * second))
    ∷ popped env (order_update (fill_of OrderSide.sell 100 3))
    ∷ []

all_happen-position_example :
    (all_happen afternoon short).strategy.position ≡ negsuc 1 +ℤ changes afternoon
unfolding symbol_eq text_eq text Confluence.make to_utc_minutes SessionContext.default_config
all_happen-position_example =
    all_happen-position afternoon short (refl, (tt, ((λ day. refl), (tt, tt))))

-- Short by two as the session opens.
opening_forgets_example :
    let (r', sent) = dispatch env (quote (quote_of si_june 60 (25_200 * second))) short in
    (r'.strategy.position ≡ pos 0) × (sent ≡ [])
unfolding Confluence.make symbol_eq text_eq text to_utc_minutes SessionContext.default_config
opening_forgets_example =
    opening_forgets env (quote_of si_june 60 (25_200 * second)) short
      (record { own = refl; fresh = refl; started = omega arith; early = omega arith })

-- A trade on which the strategy enters, and the events above.
abbrev entering : List (Env Fixed × MdEvent Fixed)
entering = (env, trade (record buy_trade { ts = 10 * second })) ∷ events

-- At ten o'clock, before any event.
abbrev morning : Runner Fixed
morning = record runner { strategy = Confluence.make config }

-- A bar and a buy of two, ten minutes later.
abbrev session : List (Happening Fixed)
session =
    subscribed (bar_of si_june 110 90 (25_800 * second))
    ∷ popped env (order_update (fill_of OrderSide.buy 100 2))
    ∷ []

opening_quote_blocks_example :
    let r =
      all_happen session (dispatch env (quote (quote_of si_june 60 (25_200 * second))) morning).0 in
    (r.strategy.session_ctx.bias ≡ SessionContext.no_bias)
    × ((env' : Env Fixed) (e : BookLevelEvent Fixed) → (dispatch env' (book e) r).1 ≡ [])
    × ((env' : Env Fixed) (e : TradeEvent Fixed) → (dispatch env' (trade e) r).1 ≡ [])
unfolding Confluence.make symbol_eq text_eq text to_utc_minutes SessionContext.default_config
opening_quote_blocks_example =
    opening_quote_blocks env (quote_of si_june 60 (25_200 * second)) session morning refl
      (record { own = refl; fresh = refl; started = omega arith; early = omega arith })
      ((λ day own. omega arith), (tt, tt))

-- ===== src/Tests/Sessions.antt =====
-- Runs of the session context and of the strategy.
use finam_tradebot.Prelude.{ℕ, ◌*◌, ◌≡◌, refl, ◌↔◌, true, ◌&&◌, some, [], ◌∷◌, arith}
use finam_tradebot.Prelude.Int.{pos, ◌+ℤ◌}
use finam_tradebot.Prelude.Map.{lookup}
use finam_tradebot.Core.Types.{Bar, Signal, Direction, second}
use finam_tradebot.Double.Fixed.{Fixed, fixed_double}
use finam_tradebot.Strategy.OfiTypes.{is_strong, is_long, is_short}
use finam_tradebot.Strategy.OrderBookState
use finam_tradebot.Strategy.TradeFlow
use finam_tradebot.Strategy.SpoofFilter
use finam_tradebot.Strategy.SessionContext
use finam_tradebot.Strategy.SessionContext.{
  SessionContext, no_bias, to_utc_minutes, long, short, on_intraday_bar,
}
use finam_tradebot.Strategy.SessionContext.OpeningRange.{feed}
use finam_tradebot.Strategy.SessionContext.NarrowRange.{
  feed_daily, history_of, is_narrowest, nr7_confirmed_lem,
}
use finam_tradebot.Strategy.Confluence
use finam_tradebot.Strategy.Confluence.{
  Confluence, try_enter, check_exit, on_quote, current_vote, confluence, entry_blocked, build_entry,
}
use finam_tradebot.Strategy.Confluence.Entry.{MayEnter, try_enter_iff}
use finam_tradebot.Strategy.Confluence.Exit.{ClosesAll, is_held, must_close, check_exit_iff}
use finam_tradebot.Tests.Fixtures.{si_june, num, config, bullish, bar_of}

abbrev context : SessionContext Fixed
context = SessionContext.make config.session_cfg

-- Seven hours after midnight UTC.
abbrev opening : ℕ
opening = 25_200 * second

abbrev first_bar : Bar Fixed
first_bar = bar_of si_june 110 90 opening

try_enter_iff_example :
    ((sig : Signal Fixed) × ((try_enter (10 * second) bullish).1 ≡ some sig)
      × (sig.direction ≡ Direction.buy))
    ↔ MayEnter (10 * second) bullish Direction.buy
try_enter_iff_example = try_enter_iff (10 * second) bullish Direction.buy

abbrev pub entry : Signal Fixed
entry = build_entry (current_vote bullish) (record bullish { last_signal_ts = 10 * second })

pub bullish_enters : (try_enter (10 * second) bullish).1 ≡ some entry
unfolding try_enter entry_blocked current_vote confluence OrderBookState.vote OrderBookState.make
    OrderBookState.default_config TradeFlow.vote TradeFlow.normalized_tfi TradeFlow.volumes
    TradeFlow.make TradeFlow.default_config Confluence.make SpoofFilter.make SpoofFilter.is_spoofed
    is_strong is_long is_short SessionContext.allows_long SessionContext.allows_short ◌+ℤ◌ lookup
bullish_enters = refl

abbrev rested : Confluence Fixed
rested = (try_enter (10 * second) bullish).0

abbrev held : Confluence Fixed
held = record bullish { position = pos 2; entry_price = num 100 }

check_exit_iff_example :
    ((sig : Signal Fixed) × (check_exit (num 60) held ≡ some sig) × ClosesAll held sig)
    ↔ ((is_held held && must_close (num 60) held) ≡ true)
check_exit_iff_example = check_exit_iff (num 60) held

stop_loss_hit : (is_held held && must_close (num 60) held) ≡ true
unfolding Confluence.pnl_ticks Confluence.make
stop_loss_hit = refl

abbrev ranged : SessionContext Fixed
ranged = feed (first_bar ∷ []) context

nr7_confirmed_lem_example :
    (feed_daily (first_bar ∷ []) context).nr7_confirmed
    ≡ is_narrowest config.session_cfg.nr7_period (history_of (first_bar ∷ []) [])
unfolding SessionContext.default_config
nr7_confirmed_lem_example =
    nr7_confirmed_lem config.session_cfg first_bar [] (omega arith) (omega arith)

-- ===== src/Tests/Flows.antt =====
-- Runs of the trade flow.
use finam_tradebot.Prelude.{◌≤◌, List, true, ◌+◌, ◌<◌, ◌*◌, ◌≡◌, refl, [], ◌∷◌, length}
use finam_tradebot.Core.Types.{second, Timestamp}
use finam_tradebot.Double.Fixed.{Fixed, fixed_double}
use finam_tradebot.Strategy.OfiTypes.{TradeEvent}
use finam_tradebot.Strategy.SpoofFilter
use finam_tradebot.Strategy.SpoofFilter.Calls.{Call, large_cancel, after, was_cancelled, endings}
use finam_tradebot.Strategy.SpoofFilter.History.{is_spoofed_justified}
use finam_tradebot.Prelude.Map.{lookup, insert, drop_if}
use finam_tradebot.Strategy.TradeFlow
use finam_tradebot.Strategy.TradeFlow.{TradeFlowAnalyzer, on_trade}
use finam_tradebot.Tests.Fixtures.{config, buy_trade, num}

abbrev late : TradeEvent Fixed
late = record buy_trade { ts = 7 * second }

-- Two trades, five seconds apart.
abbrev flow : TradeFlowAnalyzer Fixed
flow = record (TradeFlow.make config.tfi_cfg) {
  window = buy_trade ∷ record buy_trade { ts = 5 * second } ∷ [];
}

-- The first of them has left.
first_leaves : length (on_trade late flow).window ≡ 2
unfolding on_trade TradeFlow.make TradeFlow.evict_old TradeFlow.update_avg_volume
    TradeFlow.build_result TradeFlow.pop_while TradeFlow.is_older TradeFlow.default_config
first_leaves = refl

-- Five cancels at one price.
abbrev cancels : List (Call Fixed)
cancels =
    large_cancel (num 100) 5
    ∷ large_cancel (num 100) 4
    ∷ large_cancel (num 100) 3
    ∷ large_cancel (num 100) 2
    ∷ large_cancel (num 100) 1
    ∷ []

flagged : SpoofFilter.is_spoofed (num 100) (10 * second) (after cancels config.spoof_cfg) ≡ true
unfolding SpoofFilter.is_spoofed SpoofFilter.on_large_cancel SpoofFilter.maybe_flag
    SpoofFilter.evict_old SpoofFilter.is_stale SpoofFilter.level_stats SpoofFilter.make
    SpoofFilter.default_config SpoofFilter.round_price SpoofFilter.cancel_ratio lookup insert
    drop_if
flagged = refl

is_spoofed_justified_example :
    (since : Timestamp) × (was_cancelled (SpoofFilter.round_price (num 100)) since cancels ≡ true)
    × (10 * second < since + config.spoof_cfg.flag_ttl)
    × (config.spoof_cfg.min_events ≤ endings (SpoofFilter.round_price (num 100)) cancels)
is_spoofed_justified_example =
    is_spoofed_justified config.spoof_cfg cancels (num 100) (10 * second) flagged

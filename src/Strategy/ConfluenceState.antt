-- ===== src/Strategy/ConfluenceState.antt =====
-- The state of src/strategy/confluence_strategy.hpp, and the tests on the values that it reads.
use finam_tradebot.Prelude.{Bool, true, false, ◌||◌, [], if◌then◌else◌}
use finam_tradebot.Prelude.Int.{ℤ, pos}
use finam_tradebot.Prelude.Text.{Text, text, text_eq, is_empty}
use finam_tradebot.Core.Types.{
  Timestamp, Symbol, OrderSide, OrderStatus, OrderType, Direction, Signal, filled,
}
use finam_tradebot.Double.{Double, nought}
use finam_tradebot.Strategy.OrderBookState
use finam_tradebot.Strategy.OrderBookState.{OrderBookState}
use finam_tradebot.Strategy.TradeFlow
use finam_tradebot.Strategy.TradeFlow.{TradeFlowAnalyzer}
use finam_tradebot.Strategy.SpoofFilter
use finam_tradebot.Strategy.SpoofFilter.{SpoofFilter}
use finam_tradebot.Strategy.SessionContext
use finam_tradebot.Strategy.SessionContext.{
  SessionContext, Bias, no_bias, allows_long, allows_short, to_utc_minutes,
}

pub record Config (W : Type 0) : Type 0 where
  pub symbol : Symbol
  pub base_qty : ℤ
  pub sl_ticks : W
  pub tp_ticks : W
  pub tick_size : W
  pub ob_cfg : OrderBookState.Config W
  pub tfi_cfg : TradeFlow.Config W
  pub spoof_cfg : SpoofFilter.Config W
  pub session_cfg : SessionContext.Config W

pub record Confluence (W : Type 0) : Type 0 where
  pub cfg : Config W
  pub ob_state : OrderBookState W
  pub tfi_analyzer : TradeFlowAnalyzer W
  pub spoof_filter : SpoofFilter W
  pub session_ctx : SessionContext W
  pub position : ℤ
  pub entry_price : W
  pub current_bid : W
  pub current_ask : W
  pub current_mid : W
  pub session_opened_today : Bool
  pub last_signal_ts : Timestamp

pub data Timeframe : Type 0 where
  daily intraday unknown : Timeframe

unfoldable pub detect_timeframe : Text → Timeframe
detect_timeframe tf =
    if text_eq tf (text "D1") || text_eq tf (text "W1")
    then daily
    else (if is_empty tf then unknown else intraday)

abbrev pub is_no_bias : Bias → Bool
is_no_bias no_bias = true
is_no_bias _ = false

abbrev pub is_filled : OrderStatus → Bool
is_filled filled = true
is_filled _ = false

abbrev pub is_buy : OrderSide → Bool
is_buy OrderSide.buy = true
is_buy OrderSide.sell = false

module _ {W : Type 0} ⦃d : Double W⦄ where
  unfoldable pub make : Config W → Confluence W
  make c = record {
    cfg = c;
    ob_state = OrderBookState.make c.ob_cfg;
    tfi_analyzer = TradeFlow.make c.tfi_cfg;
    spoof_filter = SpoofFilter.make c.spoof_cfg;
    session_ctx = SessionContext.make c.session_cfg;
    position = pos 0;
    entry_price = nought;
    current_bid = nought;
    current_ask = nought;
    current_mid = nought;
    session_opened_today = false;
    last_signal_ts = 0;
  }

  abbrev pub no_signal : Signal W
  no_signal = record {
    symbol = record { security_code = []; security_board = [] };
    direction = Direction.no_trade;
    order_type = OrderType.market;
    price = nought;
    quantity = pos 0;
    reason = [];
  }

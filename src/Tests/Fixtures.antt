-- ===== src/Tests/Fixtures.antt =====
-- Data that the tests share.
use finam_tradebot.Prelude.{ℕ, ◌*◌, true, false, some, [], ◌∷◌}
use finam_tradebot.Prelude.Int.{pos, negsuc}
use finam_tradebot.Prelude.Text.{Text, text}
use finam_tradebot.Core.Types.{ok, Symbol, Bar, Quote, OrderUpdate, OrderSide, OrderType, filled}
use finam_tradebot.Double.{nought}
use finam_tradebot.Double.Fixed.{Fixed, fixed_double, unit}
use finam_tradebot.Strategy.OfiTypes.{TradeEvent}
use finam_tradebot.Strategy.OrderBookState
use finam_tradebot.Strategy.TradeFlow
use finam_tradebot.Strategy.SpoofFilter
use finam_tradebot.Strategy.SessionContext
use finam_tradebot.Strategy.Confluence
use finam_tradebot.Strategy.Confluence.{Confluence}
use finam_tradebot.Strategy.Runner.{Runner, Env}
use finam_tradebot.Risk.RiskManager
use finam_tradebot.Risk.RiskManager.{RiskManager, failure}
use finam_tradebot.Order.OrderClient.{OrderClient, StreamOrder, ProtoStatus}

-- SiM6@RTSX and SiU6@RTSX.
abbrev pub si_june : Symbol
si_june = record { security_code = text "SiM6"; security_board = text "RTSX" }

abbrev pub si_september : Symbol
si_september = record { security_code = text "SiU6"; security_board = text "RTSX" }

-- A number of the test type.
abbrev pub num : ℕ → Fixed
num n = pos (n * unit)

abbrev pub config : Confluence.Config Fixed
config = record {
  symbol = si_june;
  base_qty = pos 1;
  sl_ticks = num 30;
  tp_ticks = num 90;
  tick_size = num 1;
  ob_cfg = OrderBookState.default_config;
  tfi_cfg = TradeFlow.default_config;
  spoof_cfg = SpoofFilter.default_config;
  session_cfg = SessionContext.default_config;
}

abbrev pub buy_trade : TradeEvent Fixed
buy_trade = record { price = num 100; volume = num 10; is_buy = true; ts = 0 }

-- Both votes and the bias are long.
abbrev pub bullish : Confluence Fixed
bullish =
    let s = Confluence.make config in
    record s {
      ob_state = record (OrderBookState.make config.ob_cfg) { score = num 5 };
      tfi_analyzer = record (TradeFlow.make config.tfi_cfg) { window = buy_trade ∷ [] };
      session_ctx = record (SessionContext.make config.session_cfg) {
        bias = SessionContext.long;
        orb_finalized = true;
      };
    }

abbrev pub account : Text
account = text "A1"

abbrev pub client : OrderClient Fixed
client = record { account_id = account; id_counter = pos 1; orders = [] }

abbrev pub env : Env Fixed
env = record {
  now = 0;
  account_id = account;
  assets = λ sym. failure [];
  get_bars = λ sym now. ok [];
}

abbrev pub risk : RiskManager Fixed
risk = record {
  cfg = RiskManager.default_config;
  state = record {
    liquid_value = num 1000;
    used_margin = nought;
    free_margin = num 1000;
    daily_pnl = negsuc 99_999_999_999;
    open_positions = nought;
    updated_at = 0;
  };
  peak_liquid = num 1000;
  open_pos = [];
  tripped = false;
  trip_reason = [];
}

abbrev pub runner : Runner Fixed
runner = record {
  strategy = bullish;
  base_ticker = text "Si";
  rollover_days = 5;
  risk = some risk;
  active_symbol = si_june;
  subscribed = some si_june;
}

abbrev pub bar_of : Symbol → (high low : ℕ) → ℕ → Bar Fixed
bar_of sym high low ts = record {
  symbol = sym;
  timeframe = text "M1";
  open_price = num low;
  high = num high;
  low = num low;
  close = num high;
  volume = pos 1;
  ts = ts;
  date = [];
}

abbrev pub quote_of : Symbol → ℕ → ℕ → Quote Fixed
quote_of sym price ts = record {
  symbol = sym;
  bid = num price;
  ask = num price;
  last = num price;
  volume = pos 1;
  ts = ts;
}

abbrev pub streamed_order : ProtoStatus → Text → StreamOrder
streamed_order status done = record {
  order_id = text "X1";
  client_order_id = text "1";
  initial_quantity = text "5";
  executed_quantity = done;
  side_is_buy = true;
  type_is_market = true;
  status = status;
}

abbrev pub fill_of : OrderSide → (price qty : ℕ) → OrderUpdate Fixed
fill_of side price qty = record {
  order_no = pos 0;
  transaction_id = pos 1;
  symbol = si_june;
  client_id = account;
  side = side;
  status = filled;
  order_type = OrderType.market;
  price = num price;
  qty_total = pos qty;
  qty_filled = pos qty;
  message = [];
  ts = 0;
}

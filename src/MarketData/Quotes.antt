-- ===== src/MarketData/Quotes.antt =====
-- The quotes, the bars and the trades of src/market_data/market_data_client.cpp: what a message of
-- each stream calls the callback with, and the request for the bars of a span of time.
pub mod Delivered
use finam_tradebot.Prelude.{
  ◌/◌, Bool, true, false, not, Option, none, some, List, [], ◌∷◌, map, if◌then◌else◌, ℕ,
}
use finam_tradebot.Prelude.Int.{ℤ, pos}
use finam_tradebot.Prelude.Map.{eqb_ℤ}
use finam_tradebot.Prelude.Text.{Text}
use finam_tradebot.Core.Types.{
  Result, ok, error, rpc_error, Timestamp, second, Symbol, to_string, Quote, Bar,
}
use finam_tradebot.Core.Backoff
use finam_tradebot.Double.{Double, ◌≼◌, nought}
use finam_tradebot.Risk.RiskManager.{Reply, reply, failure}
use finam_tradebot.Strategy.OfiTypes.{TradeEvent}
use finam_tradebot.MarketData.Convert.{
  TimeFrame, timeframe_to_proto, ProtoTime, ts_from_proto, symbol_from_string, decimal_to_double,
}
use finam_tradebot.MarketData.Streams.{Session, run}

-- The fields of a quote of the stream that are read.
pub record ProtoQuote : Type 0 where
  pub symbol : Text
  pub bid : Text
  pub ask : Text
  pub last : Text
  pub last_size : Text
  pub timestamp : ProtoTime

-- A response of the quote stream; the error is its code, if it is set.
pub record QuoteMessage : Type 0 where
  pub error_code : Option ℤ
  pub quote : List ProtoQuote

pub record ProtoBar : Type 0 where
  pub open_price : Text
  pub high : Text
  pub low : Text
  pub close : Text
  pub volume : Text
  pub timestamp : ProtoTime

pub record BarsRequest : Type 0 where
  pub symbol : Text
  pub timeframe : TimeFrame
  pub start_time : ℕ
  pub end_time : ℕ

pub data ProtoSide : Type 0 where
  side_buy side_sell side_unspecified : ProtoSide

pub record ProtoTrade : Type 0 where
  pub price : Text
  pub size : Text
  pub side : ProtoSide
  pub timestamp : ProtoTime

-- `has_error() && error().code() != 0`.
unfoldable pub is_failure : Option ℤ → Bool
is_failure none = false
is_failure (some code) = not (eqb_ℤ code (pos 0))

module _ {W : Type 0} ⦃d : Double W⦄ where
  unfoldable pub quote_from_proto : ProtoQuote → Quote W
  quote_from_proto q = record {
    symbol = symbol_from_string q.symbol;
    bid = decimal_to_double q.bid;
    ask = decimal_to_double q.ask;
    last = decimal_to_double q.last;
    volume = d.truncate (decimal_to_double q.last_size);
    ts = ts_from_proto q.timestamp;
  }

  unfoldable pub quote_step : QuoteMessage → Unit {0} → Option (Unit {0} × List (Quote W))
  quote_step m s = if is_failure m.error_code then none else some (tt, map quote_from_proto m.quote)

  unfoldable pub subscribe_quotes :
      (W → W → W) → List (Session QuoteMessage) → Option (List (List (Quote W)))
  subscribe_quotes draw sessions =
      run quote_step (λ s. tt) draw sessions (Backoff.make Backoff.default_config) tt

  -- `date` is not set.
  unfoldable pub bar_from_proto : Symbol → Text → ProtoBar → Bar W
  bar_from_proto symbol tf b = record {
    symbol = symbol;
    timeframe = tf;
    open_price = decimal_to_double b.open_price;
    high = decimal_to_double b.high;
    low = decimal_to_double b.low;
    close = decimal_to_double b.close;
    volume = d.truncate (decimal_to_double b.volume);
    ts = ts_from_proto b.timestamp;
    date = [];
  }

  -- `bars` is the remote call.
  unfoldable pub get_bars :
      (BarsRequest → Reply (List ProtoBar))
      → Symbol
      → Text
      → Timestamp
      → Timestamp
      → Result (List (Bar W))
  get_bars bars symbol tf start end =
      elim (bars (record {
        symbol = to_string symbol;
        timeframe = timeframe_to_proto tf;
        start_time = start / second;
        end_time = end / second;
      })) [ failure msg ↦ error rpc_error msg | reply bs ↦ ok (map (bar_from_proto symbol tf) bs) ]

  unfoldable pub bar_step :
      Symbol → Text → List ProtoBar → Unit {0} → Option (Unit {0} × List (Bar W))
  bar_step symbol tf bs s =
      some (tt, map (bar_from_proto (symbol_from_string (to_string symbol)) tf) bs)

  unfoldable pub subscribe_bars :
      Symbol → Text → (W → W → W) → List (Session (List ProtoBar)) → Option (List (List (Bar W)))
  subscribe_bars symbol tf draw sessions =
      run (bar_step symbol tf) (λ s. tt) draw sessions (Backoff.make Backoff.default_config) tt

  -- The side of a trade: the one given, or the tick rule against the last price.
  unfoldable pub is_buy : ProtoSide → W → W → Bool
  is_buy side_buy price last_price = true
  is_buy side_sell price last_price = false
  is_buy side_unspecified price last_price = last_price ≼ price

  unfoldable pub trade_from_proto : ProtoTrade → W → TradeEvent W
  trade_from_proto t last_price =
      let price = decimal_to_double t.price in
      record {
        price = price;
        volume = decimal_to_double t.size;
        is_buy = is_buy t.side price last_price;
        ts = ts_from_proto t.timestamp;
      }

  -- The loop over the trades of a message: the last price, and the calls.
  unfoldable pub on_trades : List ProtoTrade → W → W × List (TradeEvent W)
  on_trades [] last_price = (last_price, [])
  on_trades (t ∷ ts) last_price =
      let (last_price', later) = on_trades ts (decimal_to_double t.price) in
      (last_price', trade_from_proto t last_price ∷ later)

  -- The last price outlives the stream.
  unfoldable pub subscribe_latest_trades :
      (W → W → W) → List (Session (List ProtoTrade)) → Option (List (List (TradeEvent W)))
  subscribe_latest_trades draw sessions =
      run (λ ts last_price. some (on_trades ts last_price)) (λ last_price. last_price) draw sessions
        (Backoff.make Backoff.default_config) nought

-- ===== src/Core/Types.antt =====
-- src/core/interfaces.hpp: errors, market data, orders, signals.
use finam_tradebot.Prelude.{ℕ, ◌≡◌, Bool, ◌&&◌, List, ◌++◌, ◌↔◌, arith, true}
use finam_tradebot.Prelude.Int.{ℤ}
use finam_tradebot.Prelude.Text.{Text, text, text_eq, text_eq_iff}

pub data ErrorCode : Type 0 where
  success connection_failed stream_disconnected timeout rpc_error : ErrorCode
  order_rejected insufficient_margin invalid_price invalid_quantity : ErrorCode
  risk_limit_exceeded daily_loss_limit_hit : ErrorCode
  invalid_argument not_implemented internal : ErrorCode

pub record Error : Type 0 where
  pub code : ErrorCode
  pub message : Text

-- `std::expected<T, Error>`.
pub data Result {ℓ} (A : Type ℓ) : Type ℓ where
  ok : A → Result A
  err : Error → Result A

abbrev pub error {ℓ} : {A : Type ℓ} → ErrorCode → Text → Result A
error c m = err (record { code = c; message = m })

-- `if (auto r = m; !r) return r; k`.
infixl 5 ◌>>◌
abbrev pub ◌>>◌ : {B : Type 0} → Result (Unit {0}) → Result B → Result B
ok tt >> rest = rest
err e >> rest = err e

-- Nanoseconds since the epoch; the default value is 0.
abbrev pub Timestamp : Type 0
Timestamp = ℕ

abbrev pub second : ℕ
second = 1_000_000_000

abbrev pub millisecond : ℕ
millisecond = 1_000_000

pub record Symbol : Type 0 where
  pub security_code : Text
  pub security_board : Text

-- `Symbol::to_string`.
unfoldable pub to_string : Symbol → Text
to_string s = s.security_code ++ (text "@" ++ s.security_board)

-- `Symbol::operator==`.
unfoldable pub symbol_eq : Symbol → Symbol → Bool
symbol_eq s t = text_eq s.security_code t.security_code && text_eq s.security_board t.security_board

pub symbol_eq_iff : (s t : Symbol) → (symbol_eq s t ≡ true) ↔ (s ≡ t)
unfolding symbol_eq
symbol_eq_iff s t = ground (
  arith,
  text_eq_iff s.security_code t.security_code,
  text_eq_iff s.security_board t.security_board,
)

pub record Quote (W : Type 0) : Type 0 where
  pub symbol : Symbol
  pub bid : W
  pub ask : W
  pub last : W
  pub volume : ℤ
  pub ts : Timestamp

pub record Bar (W : Type 0) : Type 0 where
  pub symbol : Symbol
  pub timeframe : Text
  pub open_price : W
  pub high : W
  pub low : W
  pub close : W
  pub volume : ℤ
  pub ts : Timestamp
  pub date : Text

pub record OrderBookRow (W : Type 0) : Type 0 where
  pub price : W
  pub quantity : ℤ

pub record OrderBook (W : Type 0) : Type 0 where
  pub symbol : Symbol
  pub asks : List (OrderBookRow W)
  pub bids : List (OrderBookRow W)
  pub ts : Timestamp

pub data OrderSide : Type 0 where
  buy sell : OrderSide

pub data OrderStatus : Type 0 where
  pending partial_fill filled cancelled rejected : OrderStatus

pub data OrderType : Type 0 where
  market limit : OrderType

pub record OrderUpdate (W : Type 0) : Type 0 where
  pub order_no : ℤ
  pub transaction_id : ℤ
  pub symbol : Symbol
  pub client_id : Text
  pub side : OrderSide
  pub status : OrderStatus
  pub order_type : OrderType
  pub price : W
  pub qty_total : ℤ
  pub qty_filled : ℤ
  pub message : Text
  pub ts : Timestamp

pub data Direction : Type 0 where
  buy sell close no_trade : Direction

pub record Signal (W : Type 0) : Type 0 where
  pub symbol : Symbol
  pub direction : Direction
  pub order_type : OrderType
  pub price : W
  pub quantity : ℤ
  pub reason : Text

pub record OrderRequest (W : Type 0) : Type 0 where
  pub client_id : Text
  pub symbol : Symbol
  pub side : OrderSide
  pub order_type : OrderType
  pub price : W
  pub quantity : ℤ

-- ===== src/Risk/State.antt =====
-- The state of src/risk/risk_manager.hpp, the answers that it reads, and the expiry of a contract in
-- its terms.
use finam_tradebot.Prelude.{
  ℕ, ◌+◌, ◌-◌, Bool, true, false, ◌&&◌, ◌||◌, Option, none, some, ◌++◌, leb, if◌then◌else◌, take,
  drop,
}
use finam_tradebot.Prelude.Int.{ℤ, pos, ◌+ℤ◌, ltb_ℤ}
use finam_tradebot.Prelude.Map.{Map, eqb_ℤ}
use finam_tradebot.Prelude.Text.{Text, text, find, stoi}
use finam_tradebot.Core.Types.{
  Result, ok, error, Timestamp, Symbol, to_string, OrderSide, risk_limit_exceeded,
}
use finam_tradebot.Core.Calendar.{Date}

pub record RiskConfig (W : Type 0) : Type 0 where
  pub per_trade_pct : W
  pub max_daily_loss_pct : W
  pub max_drawdown_pct : W
  pub max_positions : ℤ
  pub require_stop_loss : Bool
  pub rollover_days : ℕ

pub record AccountState (W : Type 0) : Type 0 where
  pub liquid_value : W
  pub used_margin : W
  pub free_margin : W
  pub daily_pnl : W
  pub open_positions : W
  pub updated_at : Timestamp

pub record OpenPos (W : Type 0) : Type 0 where
  pub entry_price : W
  pub qty : ℤ

pub record RiskManager (W : Type 0) : Type 0 where
  pub cfg : RiskConfig W
  pub state : AccountState W
  pub peak_liquid : W
  pub open_pos : Map (OpenPos W)
  pub tripped : Bool
  pub trip_reason : Text

-- A remote call's answer, or the message of a status that is not OK.
pub data Reply (A : Type 0) : Type 0 where
  reply : A → Reply A
  failure : Text → Reply A

-- The fields of `GetAccountResponse` that are read.
pub record AccountReply : Type 0 where
  pub equity : Text
  pub money_reserved : Text
  pub available_cash : Text
  pub unrealized_profit : Text
  pub positions_size : ℕ

-- What the polling thread reads in one round.
pub record PollRound : Type 0 where
  pub stopped : Bool
  pub answer : Reply AccountReply
  pub now : Timestamp

-- `google::type::Money`.
pub record Money : Type 0 where
  pub units : ℤ
  pub nanos : ℤ

-- The fields of `GetAssetParamsResponse` that are read.
pub record AssetParams : Type 0 where
  pub long_initial_margin : Money
  pub short_initial_margin : Money

-- GetAssetParams for a symbol, given as `to_string` writes it.
abbrev pub Assets : Type 0
Assets = Text → Reply AssetParams

abbrev pub is_buy : OrderSide → Bool
is_buy OrderSide.buy = true
is_buy OrderSide.sell = false

abbrev pub passed : Result (Unit {0})
passed = ok tt

-- Year and month of expiry, from a code such as "Si-6.26". A `substr` whose count has wrapped goes
-- to the end of the text.
unfoldable pub dashed_expiry : Text → Option (ℤ × ℤ)
dashed_expiry code = elim (find b'-' code) [
  | none ↦ none
  | some dash ↦ elim (find b'.' code) [
    | none ↦ none
    | some dot ↦
        let rest = drop (dash + 1) code in
        let digits = if leb (dash + 1) dot then take (dot - dash - 1) rest else rest in
        elim (stoi digits) [
          | none ↦ none
          | some exp_month ↦ elim (stoi (drop (dot + 1) code)) [
            | none ↦ none
            | some yy ↦ some (pos 2000 +ℤ yy, exp_month)
          ]
        ]
  ]
]

unfoldable pub date_check : (ed rollover_days : ℕ) → Symbol → Date → ℤ × ℤ → Result (Unit {0})
date_check ed rollover_days sym now (exp_year, exp_month) =
    if ltb_ℤ exp_year (pos now.year)
      || (eqb_ℤ (pos now.year) exp_year && ltb_ℤ exp_month (pos now.month))
    then error risk_limit_exceeded (text "contract expired: " ++ to_string sym)
    else (if eqb_ℤ (pos now.year) exp_year
          && (eqb_ℤ (pos now.month) exp_month && leb ed (now.day + rollover_days))
        then error risk_limit_exceeded (text "rollover window: switch to next contract")
        else passed)

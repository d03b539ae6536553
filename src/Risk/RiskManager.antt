-- ===== src/Risk/RiskManager.antt =====
-- src/risk/risk_manager.hpp and .cpp. What a remote call answers is an argument, and so is the time.
-- Each method but `check` takes the mutex `mu_` at most once and is one step. `check` takes it for
-- each of its six checks: the definition is what it answers when nothing comes in between, and
-- Strategy/Runner/Task has the six checks as steps of their own.
pub mod Checks
pub mod Account
pub mod Expiry
pub mod Sides
pub mod Opposite
pub mod Iteration
pub use finam_tradebot.Risk.State.{
  RiskConfig, AccountState, OpenPos, RiskManager, Reply, AccountReply, PollRound, Money,
  AssetParams, Assets, is_buy, passed, reply, failure,
}
unfoldable pub use finam_tradebot.Risk.State.{dashed_expiry, date_check}
use finam_tradebot.Prelude.{
  Bool, true, false, ◌&&◌, Option, none, some, List, [], ◌∷◌, ◌++◌, ◌==◌, if◌then◌else◌,
}
use finam_tradebot.Prelude.Int.{pos, ◌-ℤ◌, ltb_ℤ}
use finam_tradebot.Prelude.Map.{Map, insert}
use finam_tradebot.Prelude.Text.{Text, text}
use finam_tradebot.Core.Types.{
  Result, ok, err, error, ◌>>◌, Timestamp, Symbol, to_string, OrderUpdate, OrderRequest,
  risk_limit_exceeded, daily_loss_limit_hit, insufficient_margin, rpc_error,
}
use finam_tradebot.Core.Calendar.{today}
use finam_tradebot.Core.Contract.{expiry_day}
use finam_tradebot.Double.{Double, ◌⊕◌, ◌⊖◌, ◌⊗◌, ◌⊘◌, ◌≺◌, ◌≼◌, nought, whole}

module _ {W : Type 0} ⦃d : Double W⦄ where
  unfoldable pub default_config : RiskConfig W
  default_config = record {
    per_trade_pct = whole 2;
    max_daily_loss_pct = whole 5;
    max_drawdown_pct = whole 15;
    max_positions = pos 3;
    require_stop_loss = true;
    rollover_days = 5;
  }

  unfoldable pub make : RiskConfig W → RiskManager W
  make c = record {
    cfg = c;
    state = record {
      liquid_value = nought;
      used_margin = nought;
      free_margin = nought;
      daily_pnl = nought;
      open_positions = nought;
      updated_at = 0;
    };
    peak_liquid = nought;
    open_pos = [];
    tripped = false;
    trip_reason = [];
  }

  unfoldable pub decimal_to_double : Text → W
  decimal_to_double t = elim (d.stod t) [ none ↦ nought | some x ↦ x ]

  -- `if (liquid > peak) peak = liquid`.
  abbrev pub raise_peak : W → W → W
  raise_peak peak liquid = if peak ≺ liquid then liquid else peak

  unfoldable pub account_of : AccountReply → Timestamp → AccountState W
  account_of r now = record {
    liquid_value = decimal_to_double r.equity;
    used_margin = decimal_to_double r.money_reserved;
    free_margin = decimal_to_double r.available_cash;
    daily_pnl = decimal_to_double r.unrealized_profit;
    open_positions = d.of_ℤ (pos r.positions_size);
    updated_at = now;
  }

  unfoldable pub refresh_account :
      Reply AccountReply → Timestamp → RiskManager W → RiskManager W × Result (Unit {0})
  refresh_account (failure msg) now r = (r, error rpc_error msg)
  refresh_account (reply a) now r =
      let s = account_of a now in
      (record r { state = s; peak_liquid = raise_peak r.peak_liquid s.liquid_value }, passed)

  -- One round of the polling thread: the stop flag after the sleep, and the answer to GetAccount.
  -- The answer that `start` waits for is a round too.
  unfoldable pub poll : List PollRound → RiskManager W → RiskManager W
  poll [] r = r
  poll (p ∷ ps) r =
      let rest = poll ps (refresh_account p.answer p.now r).0 in if p.stopped then r else rest

  -- `find_if` and `erase`: the first position on the other side, and the others.
  unfoldable pub take_opposite : Bool → Map (OpenPos W) → Option (OpenPos W × Map (OpenPos W))
  take_opposite buying [] = none
  take_opposite buying ((k, p) ∷ m) =
      let rest = take_opposite buying m in
      if (if buying then ltb_ℤ p.qty (pos 0) else ltb_ℤ (pos 0) p.qty)
      then some (p, m)
      else elim rest [ none ↦ none | some (q, m') ↦ some (q, (k, p) ∷ m') ]

  unfoldable pub close_pnl : OrderUpdate W → OpenPos W → W
  close_pnl upd p =
      (upd.price ⊖ p.entry_price)
      ⊗ d.of_ℤ upd.qty_filled
      ⊗ (if ltb_ℤ (pos 0) p.qty then whole 1 else d.neg (whole 1))

  unfoldable pub close_pos : W → Map (OpenPos W) → RiskManager W → RiskManager W
  close_pos pnl rest r =
      let liquid = r.state.liquid_value ⊕ pnl in
      record r {
        state = record (r.state) { daily_pnl = r.state.daily_pnl ⊕ pnl; liquid_value = liquid };
        peak_liquid = raise_peak r.peak_liquid liquid;
        open_pos = rest;
      }

  unfoldable pub opened : OrderUpdate W → OpenPos W
  opened upd = record {
    entry_price = upd.price;
    qty = if is_buy upd.side then upd.qty_filled else pos 0 -ℤ upd.qty_filled;
  }

  unfoldable pub on_fill : OrderUpdate W → RiskManager W → RiskManager W
  on_fill upd r =
      if ltb_ℤ (pos 0) upd.qty_filled
      then elim (take_opposite (is_buy upd.side) r.open_pos) [
        | some (p, rest) ↦ close_pos (close_pnl upd p) rest r
        | none ↦ record r { open_pos = insert upd.transaction_id (opened upd) r.open_pos }
      ]
      else r

  unfoldable pub trip_circuit_breaker : Text → RiskManager W → RiskManager W
  trip_circuit_breaker reason r =
      if r.tripped then r else record r { tripped = true; trip_reason = reason }

  unfoldable pub margin_value : Money → W
  margin_value m = d.of_ℤ m.units ⊕ d.of_ℤ m.nanos ⊘ d.literal (pos 1_000_000_000) 0

  unfoldable pub fetch_initial_margin : Assets → Symbol → Bool → Result W
  fetch_initial_margin assets sym long = elim (assets (to_string sym)) [
    | failure msg ↦ error rpc_error msg
    | reply p ↦ ok (margin_value (if long then p.long_initial_margin else p.short_initial_margin))
  ]

  unfoldable pub check_circuit_breaker : RiskManager W → Result (Unit {0})
  check_circuit_breaker r =
      if r.tripped
      then error risk_limit_exceeded (text "circuit breaker tripped: " ++ r.trip_reason)
      else passed

  unfoldable pub loss_pct : RiskManager W → W
  loss_pct r = d.neg r.state.daily_pnl ⊘ r.state.liquid_value ⊗ whole 100

  unfoldable pub check_daily_loss : RiskManager W → Result (Unit {0})
  check_daily_loss r =
      if r.state.liquid_value ≺ whole 1
      then passed
      else (if r.cfg.max_daily_loss_pct ≼ loss_pct r
          then error daily_loss_limit_hit (text "daily loss limit hit")
          else passed)

  unfoldable pub drawdown_pct : RiskManager W → W
  drawdown_pct r = (r.peak_liquid ⊖ r.state.liquid_value) ⊘ r.peak_liquid ⊗ whole 100

  unfoldable pub check_drawdown : RiskManager W → Result (Unit {0})
  check_drawdown r =
      if r.peak_liquid ≺ whole 1
      then passed
      else (if r.cfg.max_drawdown_pct ≼ drawdown_pct r
          then error risk_limit_exceeded (text "max drawdown exceeded")
          else passed)

  unfoldable pub check_position_count : RiskManager W → Result (Unit {0})
  check_position_count r =
      if d.of_ℤ r.cfg.max_positions ≼ r.state.open_positions
      then error risk_limit_exceeded (text "max positions reached")
      else passed

  unfoldable pub check_expiry : Symbol → Timestamp → RiskManager W → Result (Unit {0})
  check_expiry sym now r =
      let ed = expiry_day sym in
      if ed == 0 then passed else elim (dashed_expiry sym.security_code) [
        | none ↦ passed
        | some expiry ↦ date_check ed r.cfg.rollover_days sym (today now) expiry
      ]

  -- The two limits on the margin that an order needs.
  unfoldable pub margin_limits : W → RiskManager W → Result (Unit {0})
  margin_limits required r =
      if r.state.free_margin ≺ required
      then error insufficient_margin (text "insufficient margin")
      else (if (whole 1 ≺ r.state.liquid_value)
            && (r.state.liquid_value ⊗ r.cfg.per_trade_pct ⊘ whole 100 ≺ required)
          then error risk_limit_exceeded (text "per-trade margin limit exceeded")
          else passed)

  unfoldable pub check_margin : Assets → OrderRequest W → RiskManager W → Result (Unit {0})
  check_margin assets req r = elim (fetch_initial_margin assets req.symbol (is_buy req.side)) [
    | err e ↦ passed
    | ok margin ↦ margin_limits (margin ⊗ d.of_ℤ req.quantity) r
  ]

  unfoldable pub check : Assets → Timestamp → OrderRequest W → RiskManager W → Result (Unit {0})
  check assets now req r =
      check_circuit_breaker r
      >> (check_daily_loss r
          >> (check_drawdown r
              >> (check_position_count r
                  >> (check_expiry req.symbol now r >> check_margin assets req r))))

-- ===== src/Main.antt =====
-- src/main.cpp: the instruments, the limits, the executor of dry runs, and how the parts are joined:
-- one runner for each instrument, one risk manager, and one order client, whose updates go to all
-- runners.
pub mod Broadcast
pub mod Instruments
pub mod Phantom
pub mod Health
pub mod Executor
pub mod Bot
pub mod Startup
pub mod Life
use finam_tradebot.Prelude.{
  ℕ, Bool, true, not, ◌||◌, Option, some, List, [], ◌∷◌, ◌++◌, map, if◌then◌else◌,
}
use finam_tradebot.Prelude.Int.{ℤ, pos, ◌+ℤ◌}
use finam_tradebot.Prelude.Text.{Text, text, text_eq, is_empty}
use finam_tradebot.Core.Types.{Result, ok, Timestamp, OrderRequest, OrderUpdate}
use finam_tradebot.Core.HealthServer.{HealthStatus}
use finam_tradebot.Core.Contract.{nearest_contract}
use finam_tradebot.Double.{Double, whole, decimal_lit}
use finam_tradebot.Risk.RiskManager.{RiskManager, RiskConfig}
use finam_tradebot.Strategy.OrderBookState
use finam_tradebot.Strategy.TradeFlow
use finam_tradebot.Strategy.SpoofFilter
use finam_tradebot.Strategy.SessionContext
use finam_tradebot.Strategy.Confluence
use finam_tradebot.Strategy.Runner
use finam_tradebot.Strategy.Runner.{Runner, MdEvent, Env, on_update}

pub record DryRunExecutor : Type 0 where
  pub id : ℤ

unfoldable pub submit : {W : Type 0} → OrderRequest W → DryRunExecutor → DryRunExecutor × Result ℤ
submit req s = let next = s.id +ℤ pos 1 in (record { id = next }, ok next)

unfoldable pub cancel : ℤ → DryRunExecutor → Result (Unit {0})
cancel order_no s = ok tt

-- What the command line asks for.
pub record Options : Type 0 where
  pub dry_run : Bool
  pub debug_mode : Bool

unfoldable pub parse_args : List Text → Options → Options
parse_args [] o = o
parse_args (arg ∷ args) o = parse_args args (record {
  dry_run = text_eq arg (text "--dry-run") || o.dry_run;
  debug_mode = text_eq arg (text "--debug") || o.debug_mode;
})

pub record SymbolConfig (W : Type 0) : Type 0 where
  pub ticker : Text
  pub tick_size : W
  pub base_qty : ℤ
  pub sl_ticks : W
  pub tp_ticks : W
  pub rollover_days : ℕ

module _ {W : Type 0} ⦃d : Double W⦄ where
  abbrev symbol_config : Text → W → SymbolConfig W
  symbol_config ticker tick = record {
    ticker = ticker;
    tick_size = tick;
    base_qty = pos 1;
    sl_ticks = whole 30;
    tp_ticks = whole 90;
    rollover_days = 5;
  }

  unfoldable pub make_symbol_configs : List (SymbolConfig W)
  make_symbol_configs =
      symbol_config (text "Si") (whole 1)
      ∷ symbol_config (text "RI") (whole 10)
      ∷ symbol_config (text "GD") (whole 1)
      ∷ symbol_config (text "MX") (decimal_lit 5 2)
      ∷ symbol_config (text "BR") (decimal_lit 1 2)
      ∷ []

  unfoldable pub risk_config : RiskConfig W
  risk_config = record {
    per_trade_pct = whole 2;
    max_daily_loss_pct = whole 5;
    max_drawdown_pct = whole 15;
    max_positions = pos 5;
    require_stop_loss = true;
    rollover_days = 5;
  }

  -- The loop that makes the runners. The members that are not named keep their defaults.
  unfoldable pub strategy_config : SymbolConfig W → Timestamp → Confluence.Config W
  strategy_config sc now = record {
    symbol = nearest_contract sc.ticker sc.rollover_days now;
    base_qty = sc.base_qty;
    sl_ticks = sc.sl_ticks;
    tp_ticks = sc.tp_ticks;
    tick_size = sc.tick_size;
    ob_cfg = OrderBookState.default_config;
    tfi_cfg = TradeFlow.default_config;
    spoof_cfg = SpoofFilter.default_config;
    session_cfg = SessionContext.default_config;
  }

  unfoldable pub make_runner : Env W → RiskManager W → SymbolConfig W → Runner W
  make_runner env risk sc =
      Runner.make (strategy_config sc env.now) sc.ticker sc.rollover_days (some risk) env

  unfoldable pub make_runners : Env W → RiskManager W → List (Runner W)
  make_runners env risk = map (make_runner env risk) make_symbol_configs

  -- The callback of the order client: the callbacks of all runners in turn, which share the risk
  -- manager. The result has the risk manager, and what is pushed to the queue of each runner.
  unfoldable pub broadcast :
      OrderUpdate W
      → List (Runner W)
      → Option (RiskManager W)
      → Option (RiskManager W) × List (Option (MdEvent W))
  broadcast upd [] risk = (risk, [])
  broadcast upd (r ∷ rs) risk =
      let (r', pushed) = on_update upd (record r { risk = risk }) in
      let (risk', others) = broadcast upd rs r'.risk in (risk', pushed ∷ others)

  -- The symbols that the provider of the health status joins with commas.
  unfoldable pub joined : List (SymbolConfig W) → Text → Text
  joined [] symbols = symbols
  joined (sc ∷ scs) symbols =
      joined scs ((if is_empty symbols then symbols else symbols ++ text ",") ++ sc.ticker)

  -- The provider of the health status.
  unfoldable pub health_status : RiskManager W → HealthStatus W
  health_status risk = record {
    ok = not risk.tripped;
    active_symbol = joined make_symbol_configs [];
    daily_pnl = risk.state.daily_pnl;
    liquid_value = risk.state.liquid_value;
    circuit_breaker = risk.tripped;
  }

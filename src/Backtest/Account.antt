-- ===== src/Backtest/Account.antt =====
-- The state and the results of tests/backtest/backtest_runner.hpp.
use finam_tradebot.Prelude.{ℕ, Bool, true, false, List, []}
use finam_tradebot.Prelude.Int.{ℤ, pos, ltb_ℤ}
use finam_tradebot.Prelude.Text.{Text}
use finam_tradebot.Core.Types.{Direction}
use finam_tradebot.Double.{Double, nought}
use finam_tradebot.Strategy.Confluence.{Confluence}

pub data ExitReason : Type 0 where
  take_profit stop_loss force_close : ExitReason

pub record Trade (W : Type 0) : Type 0 where
  pub entry_date : Text
  pub exit_date : Text
  pub entry_price : W
  pub exit_price : W
  pub direction : ℤ
  pub pnl_ticks : W
  pub reason : ExitReason

pub record BacktestResult (W : Type 0) : Type 0 where
  pub total_bars : ℕ
  pub total_trades : ℕ
  pub wins : ℕ
  pub losses : ℕ
  pub win_rate : W
  pub total_pnl_ticks : W
  pub max_win : W
  pub max_loss : W
  pub max_drawdown : W
  pub profit_factor : W
  pub trades : List (Trade W)

pub record Config (W : Type 0) : Type 0 where
  pub sl_ticks : W
  pub tp_ticks : W
  pub tick_size : W
  pub slippage : W
  pub commission : W

-- The position is 1, 0 or -1.
pub record BacktestRunner (W : Type 0) : Type 0 where
  pub strategy : Confluence W
  pub cfg : Config W
  pub position : ℤ
  pub entry_price : W
  pub entry_date : Text
  pub equity_peak : W

abbrev pub is_long : ℤ → Bool
is_long position = ltb_ℤ (pos 0) position

abbrev pub is_short : ℤ → Bool
is_short position = ltb_ℤ position (pos 0)

abbrev pub is_buy : Direction → Bool
is_buy Direction.buy = true
is_buy _ = false

abbrev pub is_entry : Direction → Bool
is_entry Direction.buy = true
is_entry Direction.sell = true
is_entry _ = false

module _ {W : Type 0} ⦃d : Double W⦄ where
  abbrev pub no_result : ℕ → BacktestResult W
  no_result bars = record {
    total_bars = bars;
    total_trades = 0;
    wins = 0;
    losses = 0;
    win_rate = nought;
    total_pnl_ticks = nought;
    max_win = nought;
    max_loss = nought;
    max_drawdown = nought;
    profit_factor = nought;
    trades = [];
  }

  unfoldable pub make : Confluence W → Config W → BacktestRunner W
  make strategy cfg = record {
    strategy = strategy;
    cfg = cfg;
    position = pos 0;
    entry_price = nought;
    entry_date = [];
    equity_peak = nought;
  }

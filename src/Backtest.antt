-- ===== src/Backtest.antt =====
-- tests/backtest/backtest_runner.hpp and .cpp: the runner that feeds daily bars to the strategy.
pub mod Account
pub mod Trades
pub use finam_tradebot.Backtest.Account.{
  ExitReason, take_profit, stop_loss, force_close, Trade, BacktestResult, Config, BacktestRunner,
  is_long, is_short, is_buy, is_entry, no_result,
}
unfoldable pub use finam_tradebot.Backtest.Account.{make}
use finam_tradebot.Prelude.{
  ◌+◌, ◌&&◌, Option, none, some, List, [], ◌∷◌, ◌++◌, ltb, if◌then◌else◌, length,
}
use finam_tradebot.Prelude.Int.{pos, negsuc}
use finam_tradebot.Prelude.Map.{eqb_ℤ}
use finam_tradebot.Core.Types.{Bar, Direction}
use finam_tradebot.Double
use finam_tradebot.Double.{Double, ◌⊕◌, ◌⊖◌, ◌⊗◌, ◌⊘◌, ◌≺◌, ◌≼◌, nought, whole}
use finam_tradebot.Strategy.Confluence
use finam_tradebot.Strategy.Confluence.{Confluence}

module _ {W : Type 0} ⦃d : Double W⦄ where
  unfoldable pub open_position :
      Bar W → Direction → BacktestRunner W × BacktestResult W → BacktestRunner W × BacktestResult W
  open_position bar dir (s, result) =
      let slip = s.cfg.slippage ⊗ s.cfg.tick_size in
      (
        record s {
          entry_price = bar.close ⊕ (if is_buy dir then slip else d.neg slip);
          position = if is_buy dir then pos 1 else negsuc 0;
          entry_date = bar.date;
        },
        record result { total_trades = result.total_trades + 1 },
      )

  -- The price at which a position is closed, and its profit in ticks.
  unfoldable pub exit_price : W → BacktestRunner W → W
  exit_price price s =
      let slip = s.cfg.slippage ⊗ s.cfg.tick_size in
      price ⊕ (if is_long s.position then d.neg slip else slip)

  unfoldable pub pnl : W → BacktestRunner W → W
  pnl price s =
      (exit_price price s ⊖ s.entry_price) ⊘ s.cfg.tick_size ⊗ d.of_ℤ s.position ⊖ s.cfg.commission

  unfoldable pub close_position :
      W
      → Bar W
      → ExitReason
      → BacktestRunner W × BacktestResult W
      → BacktestRunner W × BacktestResult W
  close_position price bar reason (s, result) =
      let gain = pnl price s in
      let total = result.total_pnl_ticks ⊕ gain in
      let peak = Double.max s.equity_peak total in
      (
        record s { position = pos 0; entry_price = nought; equity_peak = peak },
        record result {
          total_pnl_ticks = total;
          wins = if nought ≺ gain then result.wins + 1 else result.wins;
          losses = if nought ≺ gain then result.losses else result.losses + 1;
          max_win = Double.max result.max_win gain;
          max_loss = Double.min result.max_loss gain;
          max_drawdown = Double.max result.max_drawdown (peak ⊖ total);
          trades =
              result.trades
              ++ (record {
                entry_date = s.entry_date;
                exit_date = bar.date;
                entry_price = s.entry_price;
                exit_price = exit_price price s;
                direction = s.position;
                pnl_ticks = gain;
                reason = reason;
              }
                  ∷ []);
        },
      )

  -- The stop loss, and the take profit.
  unfoldable pub stop_price : BacktestRunner W → W
  stop_price s =
      let distance = s.cfg.sl_ticks ⊗ s.cfg.tick_size in
      if is_long s.position then s.entry_price ⊖ distance else s.entry_price ⊕ distance

  unfoldable pub target_price : BacktestRunner W → W
  target_price s =
      let distance = s.cfg.tp_ticks ⊗ s.cfg.tick_size in
      if is_long s.position then s.entry_price ⊕ distance else s.entry_price ⊖ distance

  unfoldable pub check_exit :
      Bar W → BacktestRunner W × BacktestResult W → BacktestRunner W × BacktestResult W
  check_exit bar (s, result) =
      let sl = stop_price s in
      let tp = target_price s in
      if is_long s.position && bar.low ≼ sl
      then close_position sl bar stop_loss (s, result)
      else (if is_long s.position && tp ≼ bar.high
          then close_position tp bar take_profit (s, result)
          else (if is_short s.position && sl ≼ bar.high
              then close_position sl bar stop_loss (s, result)
              else (if is_short s.position && bar.low ≼ tp
                  then close_position tp bar take_profit (s, result)
                  else (s, result))))

  -- The strategy at a bar.
  unfoldable pub feed : Bar W → BacktestRunner W → BacktestRunner W × Direction
  feed bar s =
      let (strategy', sig) = Confluence.on_bar bar s.strategy in
      (record s { strategy = strategy' }, sig.direction)

  -- The second call of the strategy, and the entry.
  unfoldable pub try_open :
      Bar W → BacktestRunner W × BacktestResult W → BacktestRunner W × BacktestResult W
  try_open bar (s, result) =
      let (s', dir) = feed bar s in
      if is_entry dir then open_position bar dir (s', result) else (s', result)

  unfoldable pub on_bar :
      Bar W → BacktestRunner W × BacktestResult W → BacktestRunner W × BacktestResult W
  on_bar bar (s, result) =
      let fed : BacktestRunner W × BacktestResult W = ((feed bar s).0, result) in
      let checked = if eqb_ℤ s.position (pos 0) then fed else check_exit bar fed in
      if eqb_ℤ checked.0.position (pos 0) then try_open bar checked else checked

  unfoldable pub on_bars :
      List (Bar W) → BacktestRunner W × BacktestResult W → BacktestRunner W × BacktestResult W
  on_bars [] p = p
  on_bars (bar ∷ bars) p = on_bars bars (on_bar bar p)

  -- `bars.back()`, which is undefined without bars.
  abbrev last_bar : List (Bar W) → Option (Bar W)
  last_bar [] = none
  last_bar (bar ∷ []) = some bar
  last_bar (bar ∷ next ∷ bars) = last_bar (next ∷ bars)

  gross_win : List (Trade W) → W → W
  gross_win [] sum = sum
  gross_win (t ∷ ts) sum = gross_win ts (if nought ≺ t.pnl_ticks then sum ⊕ t.pnl_ticks else sum)

  -- `std::abs` of a number that is not positive.
  gross_loss : List (Trade W) → W → W
  gross_loss [] sum = sum
  gross_loss (t ∷ ts) sum =
      gross_loss ts (if nought ≺ t.pnl_ticks then sum else sum ⊕ d.neg t.pnl_ticks)

  unfoldable pub finalize : BacktestResult W → BacktestResult W
  unfolding gross_win gross_loss
  finalize result =
      let total = result.wins + result.losses in
      let won = gross_win result.trades nought in
      let lost = gross_loss result.trades nought in
      record result {
        win_rate =
            if ltb 0 total
            then d.of_ℤ (pos result.wins) ⊘ d.of_ℤ (pos total) ⊗ whole 100
            else nought;
        profit_factor = if nought ≺ lost then won ⊘ lost else nought;
      }

  -- `none` is a position that is open without a bar.
  unfoldable pub run :
      List (Bar W) → BacktestRunner W → Option (BacktestRunner W × BacktestResult W)
  run bars s =
      let (s', result) = on_bars bars (s, no_result (length bars)) in
      if eqb_ℤ s'.position (pos 0) then some (s', finalize result) else elim (last_bar bars) [
        | none ↦ none
        | some bar ↦
            let (s'', closed) = close_position bar.close bar force_close (s', result) in
            some (s'', finalize closed)
      ]

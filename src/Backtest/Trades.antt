-- ===== src/Backtest/Trades.antt =====
-- What tests/backtest/backtest_runner.cpp counts.
use finam_tradebot.Prelude.{◌≡◌, refl, some, List, [], ◌∷◌, length, arith}
use finam_tradebot.Prelude.Int.{pos}
use finam_tradebot.Core.Types.{Bar, Direction}
use finam_tradebot.Double.{Double}
use finam_tradebot.Strategy.Confluence
use finam_tradebot.Strategy.Confluence.{Confluence}
use finam_tradebot.Backtest.{
  BacktestRunner, BacktestResult, Config, make, feed, try_open, on_bar, on_bars, finalize, run,
  no_result,
}

module _ {W : Type 0} ⦃d : Double W⦄ where
  -- Nothing is open, and nothing has been traded.
  abbrev pub IsIdle : BacktestRunner W × BacktestResult W → Type 0
  IsIdle (s, result) =
      (s.position ≡ pos 0)
      × (result.total_trades ≡ 0)
      × (result.trades ≡ [])
      × (result.wins ≡ 0)
      × (result.losses ≡ 0)

  on_bar-no_trade :
      (bar : Bar W) (s : Confluence W) → (Confluence.on_bar bar s).1.direction ≡ Direction.no_trade
  unfolding Confluence.on_bar
  on_bar-no_trade bar s = ground arith

  on_bar-IsIdle :
      (bar : Bar W) (p : BacktestRunner W × BacktestResult W) → IsIdle p → IsIdle (on_bar bar p)
  unfolding on_bar try_open feed
  on_bar-IsIdle bar (s, result) idle =
      let first = on_bar-no_trade bar s.strategy in
      let second = on_bar-no_trade bar (Confluence.on_bar bar s.strategy).0 in
      ground (arith, idle, first, second)

  on_bars-IsIdle :
      (bars : List (Bar W)) (p : BacktestRunner W × BacktestResult W)
      → IsIdle p
      → IsIdle (on_bars bars p)
  unfolding on_bars
  on_bars-IsIdle [] p idle = idle
  on_bars-IsIdle (bar ∷ bars) p idle = on_bars-IsIdle bars (on_bar bar p) (on_bar-IsIdle bar p idle)

  finalize-IsIdle :
      (s : BacktestRunner W) (result : BacktestResult W)
      → IsIdle (s, result)
      → IsIdle (s, finalize result)
  unfolding finalize
  finalize-IsIdle s result idle = idle

  -- Whatever the bars, the strategy and its settings, a backtest from the start runs to its end without
  -- a single trade.
  pub run-IsIdle :
      (bars : List (Bar W)) (strategy : Confluence W) (cfg : Config W)
      → (s : BacktestRunner W) × (result : BacktestResult W) × (run bars (make strategy cfg)
          ≡ some (s, result))
        × IsIdle (s, result)
  unfolding run make
  run-IsIdle bars strategy cfg =
      let start : BacktestRunner W × BacktestResult W =
        (make strategy cfg, no_result (length bars)) in
      let idle = on_bars-IsIdle bars start (refl, refl, refl, refl, refl) in
      let (s, result) = on_bars bars start in
      (s, finalize result, rw idle.0, finalize-IsIdle s result idle)

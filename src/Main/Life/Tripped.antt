-- ===== src/Main/Life/Tripped.antt =====
-- What the circuit breaker does to the program of src/main.cpp.
use finam_tradebot.Prelude.{◌≡◌, List, ◌++◌}
use finam_tradebot.Prelude.Text.{Text}
use finam_tradebot.Core.Types.{OrderRequest}
use finam_tradebot.Double.{Double}
use finam_tradebot.Strategy.Runner.{MdEvent}
use finam_tradebot.Main.Bot.{Bot}
use finam_tradebot.Main.Bot.Breaker.{Outcome, AllSettled, same-Outcome, step-Outcome}
use finam_tradebot.Main.Bot.Breaker.Parts.{Tripped}
use finam_tradebot.Main.Life.{
  Life, add_runner, Move, make_one, set_callback, turn, clear_runners, destroy_one, end_clear,
  shut_down, Onward, here, and_then,
}

module _ {W : Type 0} ⦃d : Double W⦄ where
  Move-Outcome :
      {default : MdEvent W} {l l' : Life W}
      → (reason : Text) (b₀ : Bot W) → Move default l l'
      → Outcome reason b₀ l.bot
      → Outcome reason b₀ l'.bot
  unfolding add_runner
  Move-Outcome reason b₀ (make_one env risk sc rest at_ has) out = out
  Move-Outcome reason b₀ (set_callback at_) out = out
  Move-Outcome {l} reason b₀ (turn x up runs) out = step-Outcome reason x b₀ l.bot out
  Move-Outcome reason b₀ (clear_runners at_) out = out
  Move-Outcome reason b₀ (destroy_one at_ there idle_) out = out
  Move-Outcome reason b₀ (end_clear at_ all) out = out
  Move-Outcome reason b₀ (shut_down at_) out = out

  Onward-Outcome :
      {default : MdEvent W} {l l' : Life W}
      → (reason : Text) → Onward default l l'
      → Tripped reason l.bot.risk
      → Outcome reason l.bot l'.bot
  Onward-Outcome {l} reason here trip = same-Outcome reason l.bot trip
  Onward-Outcome {l} reason (and_then path move) trip =
      Move-Outcome reason l.bot move (Onward-Outcome reason path trip)

  -- Once the circuit breaker of the shared risk manager has tripped, then in whatever order main makes
  -- runners, sets the callback, destroys runners and shuts down, and market data, bars, the single
  -- checks and submissions of all strategy threads, orders of the stream and polls of the account take
  -- effect, it stays so with its reason, and every order that any runner submits from then on is a
  -- sell, or one that a strategy thread had already brought past the check of the breaker when it
  -- tripped.
  pub Onward-Tripped :
      {default : MdEvent W} {l l' : Life W}
      → (reason : Text) → Onward default l l'
      → Tripped reason l.bot.risk
      → Tripped reason l'.bot.risk
        × ((new : List (OrderRequest W)) × (l'.bot.submitted ≡ l.bot.submitted ++ new)
            × AllSettled l.bot.tasks new)
  Onward-Tripped reason path trip =
      let (trip', new, tasks) = Onward-Outcome reason path trip in (trip', new)

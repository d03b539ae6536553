-- ===== src/Main/Life.antt =====
-- The life of the program in src/main.cpp: the runners are made one after the other while the threads of
-- those before them run already, the callback of the order client is set, and at the end the runners
-- are destroyed, one after the other while those behind them still run, before the order client is
-- shut down. The callback and the subscriptions hold pointers to the runners, and the threads of the
-- market data are detached. A runner that is destroyed keeps its place in the list.
pub mod Reachable
pub mod Asleep
pub mod Progress
pub mod Tripped
pub mod Occurs
pub mod Kept
pub mod Justified
use finam_tradebot.Prelude.{
  ℕ, ◌+◌, ◌<◌, ◌≡◌, ◌≢◌, Bool, true, false, not, ◌&&◌, ◌||◌, some, List, [], ◌∷◌, ◌++◌, length, ltb,
  leb,
}
use finam_tradebot.Double.{Double}
use finam_tradebot.Risk.RiskManager.{RiskManager, Reply}
use finam_tradebot.Strategy.Runner.{MdEvent, Env}
use finam_tradebot.Strategy.Runner.Queue
use finam_tradebot.Strategy.Runner.Task.{Task, idle, checking, tripping, sending}
use finam_tradebot.Order.OrderClient.{PlaceRequest, PlaceReply}
use finam_tradebot.Core.Types.{Timestamp}
use finam_tradebot.Main.{SymbolConfig, make_symbol_configs, make_runner}
use finam_tradebot.Main.Executor.{Executor, is_live, submit}
use finam_tradebot.Main.Bot.{Bot, Step, market, bar, watch, round, stream_order, account_poll, step}

-- Where `main` stands: `making` has the instruments that are left.
pub data Stage (W : Type 0) : Type 0 where
  making : List (SymbolConfig W) → Stage W
  serving clearing cleared closed : Stage W

-- The first `gone` runners are destroyed, and `dangling` is a call of one of them.
pub record Life (W : Type 0) : Type 0 where
  pub stage : Stage W
  pub bot : Bot W
  pub gone : ℕ
  pub dangling : Bool

-- The threads of a runner are joined when it is destroyed: they take no more steps.
unfoldable pub is_running : {W : Type 0} → Step W → ℕ → Bool
is_running (round i env place) gone = leb gone i
is_running (watch i now) gone = leb gone i
is_running (market i e) gone = true
is_running (bar i x) gone = true
is_running (stream_order o now) gone = true
is_running (account_poll a now) gone = true

abbrev is_empty : {A : Type 0} → List A → Bool
is_empty [] = true
is_empty (x ∷ xs) = false

module _ {W : Type 0} ⦃d : Double W⦄ where
  -- The thread's task is to submit, and the submission calls the callback.
  unfoldable pub reports :
      Task W → (PlaceRequest → Reply PlaceReply) → Timestamp → Executor W → Bool
  reports (sending req) place now x = not (is_empty (submit place now req x).2)
  reports idle place now x = false
  reports (checking c req) place now x = false
  reports (tripping reason) place now x = false

  -- The step calls a runner that is destroyed: a message of the market data to that runner, or a call
  -- of the callback of the order client, which calls all runners.
  unfoldable pub dangles : Step W → Life W → Bool
  dangles (market i e) l = ltb i l.gone
  dangles (bar i x) l = ltb i l.gone
  dangles (stream_order o now) l = is_live l.bot.executor && (l.bot.wired && ltb 0 l.gone)
  dangles (round i env place) l =
      reports (l.bot.tasks i) place env.now l.bot.executor && (l.bot.wired && ltb 0 l.gone)
  dangles (watch i now) l = false
  dangles (account_poll a now) l = false

  unfoldable pub launch : Executor W → RiskManager W → Life W
  launch executor risk = record {
    stage = making make_symbol_configs;
    bot = record {
      executor = executor;
      risk = some risk;
      wired = false;
      systems = [];
      tasks = λ i. idle;
      submitted = [];
    };
    gone = 0;
    dangling = false;
  }

  -- `default` is what the buffer of the queue holds.
  unfoldable pub add_runner : MdEvent W → Env W → RiskManager W → SymbolConfig W → Bot W → Bot W
  add_runner default env risk sc b = record b {
    systems = b.systems ++ (Queue.make default (make_runner env risk sc) ∷ []);
  }

  -- What happens next, in `main` or in a thread.
  pub data Move (default : MdEvent W) (l : Life W) : Life W → Type 0 where
    make_one :
        (env : Env W) (risk : RiskManager W) (sc : SymbolConfig W) (rest : List (SymbolConfig W))
        → l.stage ≡ making (sc ∷ rest)
        → l.bot.risk ≡ some risk
        → Move default l
            (record l { stage = making rest; bot = add_runner default env risk sc l.bot })
    set_callback :
        l.stage ≡ making []
        → Move default l
            (record l { stage = serving; bot = record (l.bot) { wired = is_live l.bot.executor } })
    turn :
        (x : Step W)
        → l.stage ≢ closed
        → is_running x l.gone ≡ true
        → Move default l (record l { bot = step x l.bot; dangling = l.dangling || dangles x l })
    clear_runners : l.stage ≡ serving → Move default l (record l { stage = clearing })
    -- The destructor waits until the thread has finished its task.
    destroy_one :
        l.stage ≡ clearing
        → l.gone < length l.bot.systems
        → l.bot.tasks l.gone ≡ idle
        → Move default l (record l { gone = l.gone + 1 })
    end_clear :
        l.stage ≡ clearing
        → l.gone ≡ length l.bot.systems
        → Move default l (record l { stage = cleared })
    shut_down : l.stage ≡ cleared → Move default l (record l { stage = closed })

  pub data Reach (default : MdEvent W) (executor : Executor W) (risk : RiskManager W)
      : Life W → Type 0 where
    start : Reach default executor risk (launch executor risk)
    later :
        {l l' : Life W}
        → Reach default executor risk l
        → Move default l l'
        → Reach default executor risk l'

  -- From one state to a later one.
  pub data Onward (default : MdEvent W) (l : Life W) : Life W → Type 0 where
    here : Onward default l l
    and_then : {l' l'' : Life W} → Onward default l l' → Move default l' l'' → Onward default l l''

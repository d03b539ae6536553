-- ===== src/Main/Bot.antt =====
-- The parts that src/main.cpp joins, while they run: the runners with their queues, which share the
-- risk manager and the executor. A step is what one thread does at a time: a callback of the market
-- data pushes or hands over a bar (start_subscriptions in src/strategy/strategy_runner.hpp), the
-- watchdog looks for a new contract (check_rollover there), a strategy thread goes on with its task
-- (drain_queue and handle_signal there: it lets the strategy answer an event, makes one of the checks
-- of the risk manager, trips the breaker, or submits), an order of the stream is read
-- (run_order_stream in src/order/order_client.cpp), or the account is polled (poll_loop in
-- src/risk/risk_manager.cpp). Between two steps of one thread any other thread may take steps.
-- A submission is one step with the calls of the callback in it, and so is an order of the stream.
pub mod Breaker
pub mod Idle
pub mod Unwired
pub mod Frame
pub mod Effect
pub mod Rests
pub mod Risk
use finam_tradebot.Prelude.{
  ℕ, Bool, Option, none, some, List, [], ◌∷◌, ◌++◌, map, get_elem?, set, if◌then◌else◌,
}
use finam_tradebot.Core.Types.{Timestamp, Bar, Quote, Signal, OrderRequest, OrderUpdate}
use finam_tradebot.Double.{Double}
use finam_tradebot.Risk.RiskManager.{RiskManager, Reply, AccountReply, refresh_account}
use finam_tradebot.Order.OrderClient.{PlaceRequest, PlaceReply, StreamOrder, on_stream_order}
use finam_tradebot.Strategy.OfiTypes.{BookLevelEvent, TradeEvent}
use finam_tradebot.Strategy.Runner.{
  Runner, Env, MdEvent, book, trade, quote, on_subscribed_bar, check_rollover,
}
use finam_tradebot.Strategy.Runner.Queue.{System, incoming, act}
use finam_tradebot.Strategy.Runner.Task.{
  Task, idle, checking, tripping, sending, decide, ask, task_of, after_sub_check, put,
}
use finam_tradebot.Strategy.Confluence.{no_signal}
use finam_tradebot.Core.SpscQueue.{pop}
use finam_tradebot.Prelude.Text.{Text}
use finam_tradebot.Risk.RiskManager
use finam_tradebot.Main.{broadcast}
use finam_tradebot.Main.Executor.{Executor, live, dry_run, submit}

-- `wired` says that the callback of the order client is set, and `submitted` are the requests that
-- have reached the executor, in their order.
pub record Bot (W : Type 0) : Type 0 where
  pub executor : Executor W
  pub risk : Option (RiskManager W)
  pub wired : Bool
  pub systems : List (System W)
  -- What each strategy thread is doing.
  pub tasks : ℕ → Task W
  pub submitted : List (OrderRequest W)

-- What the three subscriptions of a runner push.
pub data Feed (W : Type 0) : Type 0 where
  book_feed : BookLevelEvent W → Feed W
  trade_feed : TradeEvent W → Feed W
  quote_feed : Quote W → Feed W

abbrev pub event_of : {W : Type 0} → Feed W → MdEvent W
event_of (book_feed e) = book e
event_of (trade_feed e) = trade e
event_of (quote_feed q) = quote q

-- A runner is meant by its place.
pub data Step (W : Type 0) : Type 0 where
  market : ℕ → Feed W → Step W
  bar : ℕ → Bar W → Step W
  watch : ℕ → Timestamp → Step W
  round : ℕ → Env W → (PlaceRequest → Reply PlaceReply) → Step W
  stream_order : StreamOrder → Timestamp → Step W
  account_poll : Reply AccountReply → Timestamp → Step W

module _ {W : Type 0} ⦃d : Double W⦄ where
  unfoldable pub push_event : Option (MdEvent W) → System W → System W
  push_event none s = s
  push_event (some e) s = act (incoming e) s

  -- What the callback pushes to each queue.
  unfoldable pub push_all : List (Option (MdEvent W)) → List (System W) → List (System W)
  push_all [] ss = ss
  push_all (p ∷ ps) [] = []
  push_all (p ∷ ps) (s ∷ ss) = push_event p s ∷ push_all ps ss

  abbrev pub runners_of : List (System W) → List (Runner W)
  runners_of = map (λ (s : System W). s.runner)

  -- The callback of the order client.
  unfoldable pub call_back : OrderUpdate W → Bot W → Bot W
  call_back upd b =
      let (risk', pushed) = broadcast upd (runners_of b.systems) b.risk in
      record b { risk = risk'; systems = push_all pushed b.systems }

  -- `invoke_callback`: without a callback nothing happens.
  unfoldable pub deliver : OrderUpdate W → Bot W → Bot W
  deliver upd b = if b.wired then call_back upd b else b

  unfoldable pub deliver_all : List (OrderUpdate W) → Bot W → Bot W
  deliver_all [] b = b
  deliver_all (upd ∷ upds) b = deliver_all upds (deliver upd b)

  -- `executor_->submit`, which calls the callback before it returns.
  unfoldable pub submit_one :
      (PlaceRequest → Reply PlaceReply) → Timestamp → OrderRequest W → Bot W → Bot W
  submit_one place now req b =
      let (executor', _, upds) = submit place now req b.executor in
      deliver_all upds (record b { executor = executor'; submitted = b.submitted ++ (req ∷ []) })

  -- The strategy thread pops an event, and the strategy answers it.
  unfoldable pub take_event : Env W → System W → System W × Signal W
  take_event env s =
      let (queue, popped) = pop s.queue in
      elim popped [
        | none ↦ (record s { queue = queue }, no_signal)
        | some e ↦
            let (runner, sig) = decide env e s.runner in
            (record s { queue = queue; runner = runner }, sig)
      ]

  unfoldable pub begin_round : ℕ → Env W → Bot W → Bot W
  begin_round i env b = elim (get_elem? b.systems i) [
    | none ↦ b
    | some s ↦
        let (s', sig) = take_event env s in
        record b {
          systems = set b.systems i s';
          tasks = put i (task_of env.account_id sig) b.tasks;
        }
  ]

  unfoldable pub trip : Text → Option (RiskManager W) → Option (RiskManager W)
  trip reason none = none
  trip reason (some m) = some (RiskManager.trip_circuit_breaker reason m)

  -- What the strategy thread does next in its task. All runners share the risk manager.
  unfoldable pub go_on : Task W → ℕ → Env W → (PlaceRequest → Reply PlaceReply) → Bot W → Bot W
  go_on idle i env place b = begin_round i env b
  go_on (checking c req) i env place b = record b {
    tasks = put i (after_sub_check c req (ask c env req b.risk)) b.tasks;
  }
  go_on (tripping reason) i env place b = record b {
    risk = trip reason b.risk;
    tasks = put i idle b.tasks;
  }
  go_on (sending req) i env place b =
      submit_one place env.now req (record b { tasks = put i idle b.tasks })

  unfoldable pub round_of : ℕ → Env W → (PlaceRequest → Reply PlaceReply) → Bot W → Bot W
  round_of i env place b = go_on (b.tasks i) i env place b

  -- A step that a runner takes alone.
  unfoldable pub alter : ℕ → (System W → System W) → Bot W → Bot W
  alter i f b = elim (get_elem? b.systems i) [
    | none ↦ b
    | some s ↦ record b { systems = set b.systems i (f s) }
  ]

  -- The stream of orders belongs to the order client, so a dry run has none.
  unfoldable pub read_order : StreamOrder → Timestamp → Bot W → Bot W
  read_order o now b = elim (b.executor) [
    | live c ↦
        let (c', upd) = on_stream_order o now c in deliver upd (record b { executor = live c' })
    | dry_run x ↦ b
  ]

  unfoldable pub step : Step W → Bot W → Bot W
  step (market i e) b = alter i (act (incoming (event_of e))) b
  step (bar i x) b = alter i (λ s. record s { runner = on_subscribed_bar x s.runner }) b
  step (watch i now) b = alter i (λ s. push_event (check_rollover now s.runner) s) b
  step (round i env place) b = round_of i env place b
  step (stream_order o now) b = read_order o now b
  step (account_poll a now) b = record b {
    risk = elim (b.risk) [ none ↦ none | some r ↦ some (refresh_account a now r).0 ];
  }

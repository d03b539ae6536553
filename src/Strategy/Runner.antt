-- ===== src/Strategy/Runner.antt =====
-- src/strategy/strategy_runner.hpp: the thread that drains the event queue, runs the strategy on
-- each event and turns its signals into orders; and the callback for order updates. The requests
-- that reach `executor_->submit` are returned, in their order.
pub mod Close
pub mod Breaker
pub mod Rollover
pub mod Orphans
pub mod Position
pub mod Guard
pub mod Flat
pub mod Queue
pub mod Sizing
pub mod Task
pub mod Blocked
use finam_tradebot.Prelude.{
  ℕ, Bool, true, false, not, ◌&&◌, Option, none, some, List, [], ◌∷◌, ◌++◌, if◌then◌else◌,
}
use finam_tradebot.Prelude.Int.{pos, ltb_ℤ}
use finam_tradebot.Prelude.Text.{Text, text_eq, is_empty}
use finam_tradebot.Core.Types.{
  ErrorCode, Result, ok, err, Timestamp, Symbol, symbol_eq, Quote, Bar, OrderSide, OrderStatus,
  OrderUpdate, OrderRequest, Direction, Signal, filled, partial_fill, risk_limit_exceeded,
  daily_loss_limit_hit,
}
use finam_tradebot.Core.Contract.{nearest_contract}
use finam_tradebot.Double.{Double}
use finam_tradebot.Strategy.OfiTypes.{BookLevelEvent, TradeEvent}
use finam_tradebot.Strategy.Confluence
use finam_tradebot.Strategy.Confluence.{Confluence}
use finam_tradebot.Risk.RiskManager
use finam_tradebot.Risk.RiskManager.{RiskManager, Assets}

-- `queue_` is bounded; `push` fails when it is full.
abbrev pub queue_capacity : ℕ
queue_capacity = 1024

pub data MdEvent (W : Type 0) : Type 0 where
  book : BookLevelEvent W → MdEvent W
  trade : TradeEvent W → MdEvent W
  quote : Quote W → MdEvent W
  order_update : OrderUpdate W → MdEvent W
  rollover : Symbol → MdEvent W

pub record Runner (W : Type 0) : Type 0 where
  pub strategy : Confluence W
  pub base_ticker : Text
  pub rollover_days : ℕ
  -- `nullptr` is `none`.
  pub risk : Option (RiskManager W)
  pub active_symbol : Symbol
  -- The symbol of the five subscriptions.
  pub subscribed : Option Symbol

-- What the strategy thread takes from outside during one event.
pub record Env (W : Type 0) : Type 0 where
  pub now : Timestamp
  pub account_id : Text
  pub assets : Assets
  -- `get_bars` for D1 history.
  pub get_bars : Symbol → Timestamp → Result (List (Bar W))

abbrev pub is_close : Direction → Bool
is_close Direction.close = true
is_close _ = false

abbrev pub is_none : Direction → Bool
is_none Direction.no_trade = true
is_none _ = false

-- `(!is_close && direction == Buy) ? Buy : Sell`.
unfoldable pub order_side : Direction → OrderSide
order_side Direction.buy = OrderSide.buy
order_side _ = OrderSide.sell

abbrev pub trips_breaker : ErrorCode → Bool
trips_breaker daily_loss_limit_hit = true
trips_breaker risk_limit_exceeded = true
trips_breaker _ = false

abbrev pub is_fill_status : OrderStatus → Bool
is_fill_status filled = true
is_fill_status partial_fill = true
is_fill_status _ = false

module _ {W : Type 0} ⦃d : Double W⦄ where
  unfoldable pub request_of : Text → Signal W → OrderRequest W
  request_of account sig = record {
    client_id = account;
    symbol = sig.symbol;
    side = order_side sig.direction;
    order_type = sig.order_type;
    price = sig.price;
    quantity = sig.quantity;
  }

  -- What becomes of the risk manager when `check` answers, and whether the order goes on.
  unfoldable pub after_check : Result (Unit {0}) → RiskManager W → RiskManager W × Bool
  after_check (ok _) r = (r, true)
  after_check (err e) r =
      (if trips_breaker e.code then RiskManager.trip_circuit_breaker e.message r else r, false)

  unfoldable pub pass_risk :
      Env W → OrderRequest W → Option (RiskManager W) → Option (RiskManager W) × Bool
  pass_risk env req none = (none, true)
  pass_risk env req (some r) =
      let (r', go) = after_check (RiskManager.check env.assets env.now req r) r in (some r', go)

  unfoldable pub handle_signal : Env W → Signal W → Runner W → Runner W × List (OrderRequest W)
  handle_signal env sig s =
      let req = request_of env.account_id sig in
      if is_none sig.direction
      then (s, [])
      else (if is_close sig.direction
          then (s, req ∷ [])
          else (let (risk', go) = pass_risk env req s.risk in
              (record s { risk = risk' }, if go then req ∷ [] else [])))

  unfoldable pub handle_optional :
      Env W → Confluence W × Option (Signal W) → Runner W → Runner W × List (OrderRequest W)
  handle_optional env (strategy', none) s = (record s { strategy = strategy' }, [])
  handle_optional env (strategy', some sig) s =
      handle_signal env sig (record s { strategy = strategy' })

  feed_bars : List (Bar W) → Confluence W → Confluence W
  feed_bars [] s = s
  feed_bars (b ∷ bs) s = feed_bars bs (Confluence.on_bar b s).0

  -- A failed call leaves the strategy as it is.
  unfoldable pub load_history : Result (List (Bar W)) → Confluence W → Confluence W
  unfolding feed_bars
  load_history (err e) s = s
  load_history (ok bars) s = feed_bars bars s

  -- The constructor. It subscribes to the symbol of the strategy.
  unfoldable pub make : Confluence.Config W → Text → ℕ → Option (RiskManager W) → Env W → Runner W
  make cfg base_ticker rollover_days risk env = record {
    strategy = load_history (env.get_bars cfg.symbol env.now) (Confluence.make cfg);
    base_ticker = base_ticker;
    rollover_days = rollover_days;
    risk = risk;
    active_symbol = cfg.symbol;
    subscribed = some cfg.symbol;
  }

  -- `dispatch(const RolloverEvent&)`. `cfg_copy` is a copy: the strategy keeps its own symbol.
  unfoldable pub dispatch_rollover : Env W → Symbol → Runner W → Runner W
  dispatch_rollover env new_symbol s = record s {
    strategy =
        load_history (env.get_bars new_symbol env.now) (Confluence.on_session_open s.strategy);
    active_symbol = new_symbol;
    subscribed = some new_symbol;
  }

  unfoldable pub dispatch : Env W → MdEvent W → Runner W → Runner W × List (OrderRequest W)
  dispatch env (book e) s = handle_optional env (Confluence.on_book_event e s.strategy) s
  dispatch env (trade e) s = handle_optional env (Confluence.on_trade_event e s.strategy) s
  dispatch env (quote q) s =
      let (strategy', sig) = Confluence.on_quote q (Confluence.update_bbo q.bid q.ask s.strategy) in
      handle_signal env sig (record s { strategy = strategy' })
  dispatch env (order_update upd) s =
      (record s { strategy = Confluence.on_order_update upd s.strategy }, [])
  dispatch env (rollover new_symbol) s = (dispatch_rollover env new_symbol s, [])

  -- `drain_queue`, over the events that are popped. The bars of the subscriptions come in outside the
  -- queue, see `on_subscribed_bar`.
  unfoldable pub drain : List (Env W × MdEvent W) → Runner W → Runner W × List (OrderRequest W)
  drain [] s = (s, [])
  drain ((env, e) ∷ es) s =
      let (s₁, sent) = dispatch env e s in let (s₂, later) = drain es s₁ in (s₂, sent ++ later)

  -- The bars of the two bar subscriptions do not pass through the queue.
  unfoldable pub on_subscribed_bar : Bar W → Runner W → Runner W
  on_subscribed_bar bar s = record s { strategy = (Confluence.on_bar bar s.strategy).0 }

  -- The callback of `make_order_callback`: the runner, and what is pushed.
  unfoldable pub on_update : OrderUpdate W → Runner W → Runner W × Option (MdEvent W)
  on_update upd s =
      if not (symbol_eq upd.symbol s.active_symbol) && not (is_empty upd.symbol.security_code)
      then (s, none)
      else (if is_fill_status upd.status && ltb_ℤ (pos 0) upd.qty_filled
          then (
            record s {
              risk = elim (s.risk) [ none ↦ none | some r ↦ some (RiskManager.on_fill upd r) ];
            },
            some (order_update upd),
          )
          else (s, some (order_update upd)))

  -- `check_rollover` of the watchdog thread.
  unfoldable pub check_rollover : Timestamp → Runner W → Option (MdEvent W)
  check_rollover now s =
      let next = nearest_contract s.base_ticker s.rollover_days now in
      if text_eq next.security_code s.active_symbol.security_code
      then none
      else some (rollover next)

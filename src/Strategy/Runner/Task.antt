-- ===== src/Strategy/Runner/Task.antt =====
-- What a strategy thread of src/strategy/strategy_runner.hpp does with one event, cut where other
-- threads can come in between: the strategy answers the event; `check` of src/risk/risk_manager.cpp
-- goes through six checks, each with a lock of its own; a check that fails may trip the breaker; and
-- the order is submitted without a lock. The remote call before the lock of the last check reads
-- nothing that the threads share: its answer is part of that check.
use finam_tradebot.Prelude.{ℕ, ◌≡◌, refl, Option, none, some, if◌then◌else◌, arith, ◌==◌, ◌⊎◌}
use finam_tradebot.Core.Types.{
  Result, ok, err, ◌>>◌, Timestamp, Signal, Direction, OrderSide, OrderRequest,
}
use finam_tradebot.Prelude.Text.{Text}
use finam_tradebot.Double.{Double}
use finam_tradebot.Risk.RiskManager
use finam_tradebot.Risk.RiskManager.{RiskManager, Assets, passed, check}
use finam_tradebot.Strategy.Confluence
use finam_tradebot.Strategy.Confluence.{Confluence, no_signal, signal_or_none}
use finam_tradebot.Strategy.Runner.{
  Runner, Env, MdEvent, book, trade, quote, order_update, rollover, handle_signal, handle_optional,
  request_of, order_side, dispatch, dispatch_rollover, is_none, is_close, trips_breaker,
}

-- The checks of `check`, in their order.
pub data Check : Type 0 where
  breaker daily_loss drawdown positions expiry margin : Check

unfoldable pub next_check : Check → Option Check
next_check breaker = some daily_loss
next_check daily_loss = some drawdown
next_check drawdown = some positions
next_check positions = some expiry
next_check expiry = some margin
next_check margin = none

-- Where the thread stands: it waits for an event, is about to make a check, to trip the breaker, or to
-- submit.
pub data Task (W : Type 0) : Type 0 where
  idle : Task W
  checking : Check → OrderRequest W → Task W
  tripping : Text → Task W
  sending : OrderRequest W → Task W

module _ {W : Type 0} ⦃d : Double W⦄ where
  -- `dispatch` up to the call of `handle_signal`.
  unfoldable pub decide : Env W → MdEvent W → Runner W → Runner W × Signal W
  decide env (book e) s =
      let (strategy', sig) = Confluence.on_book_event e s.strategy in
      (record s { strategy = strategy' }, signal_or_none sig)
  decide env (trade e) s =
      let (strategy', sig) = Confluence.on_trade_event e s.strategy in
      (record s { strategy = strategy' }, signal_or_none sig)
  decide env (quote q) s =
      let (strategy', sig) = Confluence.on_quote q (Confluence.update_bbo q.bid q.ask s.strategy) in
      (record s { strategy = strategy' }, sig)
  decide env (order_update upd) s =
      (record s { strategy = Confluence.on_order_update upd s.strategy }, no_signal)
  decide env (rollover new_symbol) s = (dispatch_rollover env new_symbol s, no_signal)

  unfoldable pub sub_check :
      Check → Assets → Timestamp → OrderRequest W → RiskManager W → Result (Unit {0})
  sub_check breaker assets now req m = RiskManager.check_circuit_breaker m
  sub_check daily_loss assets now req m = RiskManager.check_daily_loss m
  sub_check drawdown assets now req m = RiskManager.check_drawdown m
  sub_check positions assets now req m = RiskManager.check_position_count m
  sub_check expiry assets now req m = RiskManager.check_expiry req.symbol now m
  sub_check margin assets now req m = RiskManager.check_margin assets req m

  -- Without a risk manager nothing is checked.
  unfoldable pub ask : Check → Env W → OrderRequest W → Option (RiskManager W) → Result (Unit {0})
  ask c env req none = passed
  ask c env req (some m) = sub_check c env.assets env.now req m

  -- `handle_signal` up to the first check.
  unfoldable pub task_of : Text → Signal W → Task W
  task_of account sig =
      let req = request_of account sig in
      if is_none sig.direction
      then idle
      else (if is_close sig.direction then sending req else checking breaker req)

  unfoldable pub after_sub_check : Check → OrderRequest W → Result (Unit {0}) → Task W
  after_sub_check c req (ok _) = elim (next_check c) [
    | none ↦ sending req
    | some c' ↦ checking c' req
  ]
  after_sub_check c req (err e) = if trips_breaker e.code then tripping e.message else idle

  -- The task of one thread changes.
  unfoldable pub put : ℕ → Task W → (ℕ → Task W) → ℕ → Task W
  put i t ts j = if j == i then t else ts j

  pub put-cases :
      (i j : ℕ) (t : Task W) (ts : ℕ → Task W)
      → ((j ≡ i) × (put i t ts j ≡ t)) ⊎ (put i t ts j ≡ ts j)
  unfolding put
  put-cases i j t ts = ground arith

  optional_decides :
      (env : Env W) (out : Confluence W × Option (Signal W)) (s : Runner W)
      → handle_optional env out s
        ≡ handle_signal env (signal_or_none out.1) (record s { strategy = out.0 })
  unfolding handle_optional handle_signal
  optional_decides env (strategy', none) s = refl
  optional_decides env (strategy', some sig) s = refl

  -- `dispatch` is the answer of the strategy and then `handle_signal`.
  pub dispatch-decide :
      (env : Env W) (e : MdEvent W) (s : Runner W)
      → dispatch env e s ≡ handle_signal env (decide env e s).1 (decide env e s).0
  unfolding dispatch decide handle_signal
  dispatch-decide env (book e) s = optional_decides env (Confluence.on_book_event e s.strategy) s
  dispatch-decide env (trade e) s = optional_decides env (Confluence.on_trade_event e s.strategy) s
  dispatch-decide env (quote q) s = refl
  dispatch-decide env (order_update upd) s = refl
  dispatch-decide env (rollover sym) s = refl

  -- `check` is the six checks in their order, when no other thread comes in between.
  pub check-sub_check :
      (assets : Assets) (now : Timestamp) (req : OrderRequest W) (m : RiskManager W)
      → let at_ = λ (c : Check). sub_check c assets now req m in
        check assets now req m
        ≡ at_ breaker
          >> (at_ daily_loss >> (at_ drawdown >> (at_ positions >> (at_ expiry >> at_ margin))))
  unfolding check sub_check
  check-sub_check assets now req m = refl

  -- The order of a thread that has passed the breaker.
  abbrev pub pending : Task W → Option (OrderRequest W)
  pending idle = none
  pending (checking breaker req) = none
  pending (checking daily_loss req) = some req
  pending (checking drawdown req) = some req
  pending (checking positions req) = some req
  pending (checking expiry req) = some req
  pending (checking margin req) = some req
  pending (tripping reason) = none
  pending (sending req) = some req

  -- A signal whose order is pending at once is one that closes, with a sell.
  pub task_of-sell :
      (account : Text) (sig : Signal W) (req : OrderRequest W)
      → pending (task_of account sig) ≡ some req
      → req.side ≡ OrderSide.sell
  unfolding task_of request_of order_side
  task_of-sell account sig req p = ground arith

  -- An order that is sent at once is that of a signal that closes.
  pub task_of-sending :
      (account : Text) (sig : Signal W) (req : OrderRequest W)
      → task_of account sig ≡ sending req
      → (sig.direction ≡ Direction.close) × (req ≡ request_of account sig)
  unfolding task_of
  task_of-sending account sig req e = ground arith

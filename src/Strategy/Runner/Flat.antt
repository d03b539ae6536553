-- ===== src/Strategy/Runner/Flat.antt =====
-- A strategy of src/strategy/strategy_runner.hpp that gets no update of an order.
use finam_tradebot.Prelude.{ℕ, ◌≡◌, refl, ◌∙◌, Option, none, some, List, [], ◌∷◌, arith}
use finam_tradebot.Prelude.Int.{pos}
use finam_tradebot.Prelude.Map.{Map}
use finam_tradebot.Core.Types.{Result, ok, err, Symbol, Signal, Bar, Quote, OrderRequest}
use finam_tradebot.Double.{Double}
use finam_tradebot.Risk.RiskManager.{RiskManager, OpenPos, trip_circuit_breaker, check}
use finam_tradebot.Strategy.Confluence
use finam_tradebot.Strategy.Confluence.{Confluence}
use finam_tradebot.Strategy.Runner.{
  Runner, Env, MdEvent, book, trade, quote, order_update, rollover, handle_signal, handle_optional,
  request_of, after_check, pass_risk, dispatch, dispatch_rollover, load_history, feed_bars,
  on_subscribed_bar,
}
use finam_tradebot.Strategy.Runner.Position.{strategy-handle_signal, strategy-handle_optional}

module _ {W : Type 0} where
  -- Anything but an update of an order.
  abbrev pub IsNews : MdEvent W → Type 0
  IsNews (order_update upd) = ⊥
  IsNews (book e) = Unit
  IsNews (trade e) = Unit
  IsNews (quote q) = Unit
  IsNews (rollover sym) = Unit

  abbrev pub IsFlat : Confluence W → Type 0
  IsFlat s = s.position ≡ pos 0

  -- The positions that the risk manager has booked, if there is one.
  abbrev pub booked_of : Option (RiskManager W) → Map (OpenPos W)
  booked_of none = []
  booked_of (some m) = m.open_pos

module _ {W : Type 0} ⦃d : Double W⦄ where
  handle_session_open-IsFlat :
      (ts : ℕ) (s : Confluence W) → IsFlat s → IsFlat (Confluence.handle_session_open ts s)
  unfolding Confluence.handle_session_open Confluence.on_session_open
  handle_session_open-IsFlat ts s flat = ground arith

  on_bar-IsFlat : (b : Bar W) (s : Confluence W) → IsFlat s → IsFlat (Confluence.on_bar b s).0
  unfolding Confluence.on_bar
  on_bar-IsFlat b s flat = ground (arith, handle_session_open-IsFlat b.ts s flat)

  feed_bars-IsFlat : (bs : List (Bar W)) (s : Confluence W) → IsFlat s → IsFlat (feed_bars bs s)
  unfolding feed_bars
  feed_bars-IsFlat [] s flat = flat
  feed_bars-IsFlat (b ∷ bs) s flat =
      feed_bars-IsFlat bs (Confluence.on_bar b s).0 (on_bar-IsFlat b s flat)

  pub load_history-IsFlat :
      (h : Result (List (Bar W))) (s : Confluence W) → IsFlat s → IsFlat (load_history h s)
  unfolding load_history
  load_history-IsFlat (ok bs) s flat = feed_bars-IsFlat bs s flat
  load_history-IsFlat (err e) s flat = flat

  on_quote-IsFlat : (q : Quote W) (s : Confluence W) → IsFlat s → IsFlat (Confluence.on_quote q s).0
  unfolding Confluence.on_quote Confluence.observe_quote
  on_quote-IsFlat q s flat = ground (arith, handle_session_open-IsFlat q.ts s flat)

  try_enter-position :
      (ts : ℕ) (s : Confluence W) → (Confluence.try_enter ts s).0.position ≡ s.position
  unfolding Confluence.try_enter
  try_enter-position ts s = ground arith

  rollover-IsFlat :
      (env : Env W) (sym : Symbol) (r : Runner W) → IsFlat (dispatch_rollover env sym r).strategy
  unfolding dispatch_rollover Confluence.on_session_open
  rollover-IsFlat env sym r = load_history-IsFlat (env.get_bars sym env.now) _ refl

  pub on_subscribed_bar-IsFlat :
      (b : Bar W) (r : Runner W) → IsFlat r.strategy → IsFlat (on_subscribed_bar b r).strategy
  unfolding on_subscribed_bar
  on_subscribed_bar-IsFlat b r flat = on_bar-IsFlat b r.strategy flat

  pub dispatch-IsFlat :
      (env : Env W) (e : MdEvent W) (r : Runner W)
      → IsNews e
      → IsFlat r.strategy
      → IsFlat (dispatch env e r).0.strategy
  unfolding dispatch Confluence.on_book_event Confluence.on_trade_event Confluence.update_bbo
  dispatch-IsFlat env (book e) r news flat =
      rw (strategy-handle_optional env (Confluence.on_book_event e r.strategy) r)
        (try_enter-position e.ts _ ∙ flat)
  dispatch-IsFlat env (trade e) r news flat =
      rw (strategy-handle_optional env (Confluence.on_trade_event e r.strategy) r)
        (try_enter-position e.ts _ ∙ flat)
  dispatch-IsFlat env (quote q) r news flat =
      let out = Confluence.on_quote q (Confluence.update_bbo q.bid q.ask r.strategy) in
      rw (strategy-handle_signal env out.1 (record r { strategy = out.0 }))
        (on_quote-IsFlat q (Confluence.update_bbo q.bid q.ask r.strategy) flat)
  dispatch-IsFlat env (order_update upd) r news flat = absurd news
  dispatch-IsFlat env (rollover sym) r news flat = rollover-IsFlat env sym r

  after_check-booked :
      (x : Result (Unit {0})) (m : RiskManager W) → (after_check x m).0.open_pos ≡ m.open_pos
  unfolding after_check trip_circuit_breaker
  after_check-booked (ok u) m = refl
  after_check-booked (err e) m = ground arith

  pass_risk-booked :
      (env : Env W) (req : OrderRequest W) (risk : Option (RiskManager W))
      → booked_of (pass_risk env req risk).0 ≡ booked_of risk
  unfolding pass_risk
  pass_risk-booked env req none = refl
  pass_risk-booked env req (some m) = after_check-booked (check env.assets env.now req m) m

  handle_signal-booked :
      (env : Env W) (sig : Signal W) (r : Runner W)
      → booked_of (handle_signal env sig r).0.risk ≡ booked_of r.risk
  unfolding handle_signal
  handle_signal-booked env sig r =
      ground (arith, pass_risk-booked env (request_of env.account_id sig) r.risk)

  handle_optional-booked :
      (env : Env W) (out : Confluence W × Option (Signal W)) (r : Runner W)
      → booked_of (handle_optional env out r).0.risk ≡ booked_of r.risk
  unfolding handle_optional
  handle_optional-booked env (s, none) r = refl
  handle_optional-booked env (s, some sig) r =
      handle_signal-booked env sig (record r { strategy = s })

  -- No event books or closes a position of the risk manager.
  pub dispatch-booked :
      (env : Env W) (e : MdEvent W) (r : Runner W)
      → booked_of (dispatch env e r).0.risk ≡ booked_of r.risk
  unfolding dispatch dispatch_rollover
  dispatch-booked env (book e) r = handle_optional-booked env _ r
  dispatch-booked env (trade e) r = handle_optional-booked env _ r
  dispatch-booked env (quote q) r =
      let out = Confluence.on_quote q (Confluence.update_bbo q.bid q.ask r.strategy) in
      handle_signal-booked env out.1 (record r { strategy = out.0 })
  dispatch-booked env (order_update upd) r = refl
  dispatch-booked env (rollover sym) r = refl

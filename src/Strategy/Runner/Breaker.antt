-- ===== src/Strategy/Runner/Breaker.antt =====
-- The circuit breaker between src/strategy/strategy_runner.hpp and src/risk/risk_manager.cpp: once
-- it has tripped, the runner enters no more.
use finam_tradebot.Prelude.{
  ℕ, ◌≡◌, refl, ◌⊎◌, inl, inr, true, false, Option, none, some, List, [], ◌∷◌, arith, if◌then◌else◌,
}
use finam_tradebot.Prelude.Int.{abs}
use finam_tradebot.Prelude.Text.{Text}
use finam_tradebot.Core.Types.{err, Error, Signal, Direction, OrderSide, OrderRequest}
use finam_tradebot.Double.{Double}
use finam_tradebot.Strategy.Confluence
use finam_tradebot.Strategy.Confluence.{Confluence}
use finam_tradebot.Strategy.Confluence.Exit.{ClosesAll, on_quote_closes}
use finam_tradebot.Strategy.Runner.{
  Runner, Env, MdEvent, book, trade, quote, order_update, rollover, handle_signal, handle_optional,
  request_of, order_side, after_check, pass_risk, dispatch, drain, dispatch_rollover, trips_breaker,
  is_close, is_none,
}
use finam_tradebot.Risk.RiskManager.{
  RiskManager, check, check_circuit_breaker, trip_circuit_breaker,
}

module _ {W : Type 0} ⦃d : Double W⦄ where
  -- The runner has a risk manager whose breaker has tripped for a reason.
  abbrev pub IsTripped : Text → Runner W → Type 0
  IsTripped reason r =
      (m : RiskManager W) × (r.risk ≡ some m) × (m.tripped ≡ true) × (m.trip_reason ≡ reason)

  -- The request closes the whole position that the runner's strategy holds.
  abbrev pub ClosesPosition : Runner W → OrderRequest W → Type 0
  ClosesPosition r req =
      (req.symbol ≡ r.strategy.cfg.symbol)
      × (req.quantity ≡ abs r.strategy.position)
      × (req.side ≡ OrderSide.sell)

  -- Nothing is sent, or one request that closes the position.
  abbrev pub OnlyCloses : Runner W × List (OrderRequest W) → Type 0
  OnlyCloses (r, sent) =
      (sent ≡ []) ⊎ ((req : OrderRequest W) × (sent ≡ req ∷ []) × ClosesPosition r req)

  -- What one event sends: only a quote sends anything, and that closes.
  abbrev pub Quiet : MdEvent W → Runner W × List (OrderRequest W) → Type 0
  Quiet (quote q) out = OnlyCloses out
  Quiet (book e) out = out.1 ≡ []
  Quiet (trade e) out = out.1 ≡ []
  Quiet (order_update upd) out = out.1 ≡ []
  Quiet (rollover sym) out = out.1 ≡ []

  -- So for each event of a sequence, in the state that it finds.
  abbrev pub QuietRun : List (Env W × MdEvent W) → Runner W → Type 0
  QuietRun [] r = Unit
  QuietRun ((env, e) ∷ es) r = Quiet e (dispatch env e r) × QuietRun es (dispatch env e r).0

  pass_risk-tripped :
      (env : Env W) (req : OrderRequest W) (m : RiskManager W)
      → m.tripped ≡ true
      → pass_risk env req (some m) ≡ (some m, false)
  unfolding pass_risk check check_circuit_breaker after_check trip_circuit_breaker
  pass_risk-tripped env req m t = rw t

  pub handle_close :
      (env : Env W) (sig : Signal W) (r : Runner W)
      → sig.direction ≡ Direction.close
      → handle_signal env sig r ≡ (r, request_of env.account_id sig ∷ [])
  unfolding handle_signal
  handle_close env sig r e = rw e

  handle_entry :
      (env : Env W) (sig : Signal W) (r : Runner W) (m : RiskManager W)
      → is_close sig.direction ≡ false
      → r.risk ≡ some m
      → m.tripped ≡ true
      → (((handle_signal env sig r).0).risk ≡ some m) × ((handle_signal env sig r).1 ≡ [])
  unfolding handle_signal
  handle_entry env sig r m open_ has t =
      ground (arith, pass_risk-tripped env (request_of env.account_id sig) m t)

  handle_optional-IsTripped :
      (reason : Text) (env : Env W) (out : Confluence W × Option (Signal W)) (r : Runner W)
      → IsTripped reason r
      → ((sig : Signal W) → out.1 ≡ some sig → is_close sig.direction ≡ false)
      → IsTripped reason (handle_optional env out r).0 × ((handle_optional env out r).1 ≡ [])
  unfolding handle_optional
  handle_optional-IsTripped reason env (s, none) r trip entry = (trip, refl)
  handle_optional-IsTripped reason env (s, some sig) r (m, has, t, why) entry =
      let (kept, quiet) =
        handle_entry env sig (record r { strategy = s }) m (entry sig refl) has t in
      ((m, kept, t, why), quiet)

  pub try_enter-not_close :
      (ts : ℕ) (s : Confluence W) (sig : Signal W)
      → (Confluence.try_enter ts s).1 ≡ some sig
      → is_close sig.direction ≡ false
  unfolding Confluence.try_enter Confluence.build_entry
  try_enter-not_close ts s sig e = ground arith

  -- The signal of a quote, handled by the runner that holds the strategy after it.
  exit-OnlyCloses :
      (reason : Text) (env : Env W) (sig : Signal W) (r : Runner W)
      → IsTripped reason r
      → (sig.direction ≡ Direction.no_trade) ⊎ ClosesAll r.strategy sig
      → IsTripped reason (handle_signal env sig r).0 × OnlyCloses (handle_signal env sig r)
  unfolding request_of order_side
  exit-OnlyCloses reason env sig r (m, has, t, why) (inl quiet) =
      let (kept, nothing) = handle_entry env sig r m (rw quiet) has t in
      ((m, kept, t, why), inl nothing)
  exit-OnlyCloses reason env sig r trip (inr (dir, qty, sym)) =
      rw (handle_close env sig r dir)
        (trip, inr (request_of env.account_id sig, refl, (sym, qty, rw dir)))

  pub dispatch-IsTripped :
      (reason : Text) (env : Env W) (e : MdEvent W) (r : Runner W)
      → IsTripped reason r
      → IsTripped reason (dispatch env e r).0 × Quiet e (dispatch env e r)
  unfolding dispatch Confluence.on_book_event Confluence.on_trade_event dispatch_rollover
  dispatch-IsTripped reason env (book e) r trip =
      handle_optional-IsTripped reason env _ r trip (try_enter-not_close e.ts _)
  dispatch-IsTripped reason env (trade e) r trip =
      handle_optional-IsTripped reason env _ r trip (try_enter-not_close e.ts _)
  dispatch-IsTripped reason env (quote q) r trip =
      let out = Confluence.on_quote q (Confluence.update_bbo q.bid q.ask r.strategy) in
      exit-OnlyCloses reason env out.1 (record r { strategy = out.0 }) trip
        (on_quote_closes q (Confluence.update_bbo q.bid q.ask r.strategy))
  dispatch-IsTripped reason env (order_update upd) r trip = (trip, refl)
  dispatch-IsTripped reason env (rollover sym) r trip = (trip, refl)

  -- Once the circuit breaker has tripped, no sequence of events resets it or changes its reason. Book
  -- events, trades, order updates and rollovers then send no order; a quote sends none, or one sell
  -- order over the whole position that the strategy holds.
  pub drain-IsTripped :
      (reason : Text) (es : List (Env W × MdEvent W)) (r : Runner W)
      → IsTripped reason r
      → IsTripped reason (drain es r).0 × QuietRun es r
  unfolding drain
  drain-IsTripped reason [] r trip = (trip, tt)
  drain-IsTripped reason ((env, e) ∷ es) r trip =
      let (trip₁, quiet) = dispatch-IsTripped reason env e r trip in
      let (trip₂, later) = drain-IsTripped reason es (dispatch env e r).0 trip₁ in
      (trip₂, (quiet, later))

  -- What a failed check does to a runner whose breaker has not tripped: nothing is sent, and the
  -- breaker trips, with the check's message, exactly on the daily loss and the risk limit codes.
  pub handle_signal_refused :
      (env : Env W) (sig : Signal W) (r : Runner W) (m : RiskManager W) (e : Error)
      → is_close sig.direction ≡ false
      → is_none sig.direction ≡ false
      → r.risk ≡ some m
      → m.tripped ≡ false
      → check env.assets env.now (request_of env.account_id sig) m ≡ err e
      → handle_signal env sig r ≡ (
        record r {
          risk = some (record m {
            tripped = trips_breaker e.code;
            trip_reason = if trips_breaker e.code then e.message else m.trip_reason;
          });
        },
        [],
      )
  unfolding handle_signal pass_risk after_check trip_circuit_breaker
  handle_signal_refused env sig r m e c n has fresh fails = rw (n, c, has, fails) (ground arith)

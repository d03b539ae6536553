-- ===== src/Strategy/Runner/Guard.antt =====
-- Which orders of src/strategy/strategy_runner.hpp pass the risk check.
use finam_tradebot.Prelude.{
  ◌≡◌, refl, sym, ◌⊎◌, inl, inr, true, false, Bool-cases, Option, none, some, List, [], ◌∷◌, arith,
}
use finam_tradebot.Core.Types.{Result, ok, err, Error, Signal, Direction, OrderRequest}
use finam_tradebot.Double.{Double}
use finam_tradebot.Risk.RiskManager.{RiskManager, check, passed}
use finam_tradebot.Strategy.Confluence
use finam_tradebot.Strategy.Confluence.{Confluence}
use finam_tradebot.Strategy.Confluence.Exit.{ClosesAll, on_quote_closes}
use finam_tradebot.Strategy.Runner.{
  Runner, Env, MdEvent, book, trade, quote, order_update, rollover, handle_signal, handle_optional,
  request_of, order_side, after_check, pass_risk, dispatch, is_close, is_none,
}
use finam_tradebot.Strategy.Runner.Breaker.{OnlyCloses, handle_close, try_enter-not_close}
use finam_tradebot.Strategy.Runner.Position.{handle-no_trade}

pub Result-cases : (x : Result (Unit {0})) → (x ≡ passed) ⊎ ((e : Error) × (x ≡ err e))
Result-cases (ok tt) = inl refl
Result-cases (err e) = inr (e, refl)

module _ {W : Type 0} ⦃d : Double W⦄ where
  -- Nothing is sent, or one order that the check of the risk manager has passed, if there is one.
  abbrev pub OnlyChecked : Env W → Option (RiskManager W) → List (OrderRequest W) → Type 0
  OnlyChecked env risk sent =
      (sent ≡ [])
      ⊎ ((req : OrderRequest W) × (sent ≡ req ∷ [])
          × ((m : RiskManager W) → risk ≡ some m → check env.assets env.now req m ≡ passed))

  -- What an event may send.
  abbrev pub Guarded :
      Env W → MdEvent W → Option (RiskManager W) → Runner W × List (OrderRequest W) → Type 0
  Guarded env (quote q) risk out = OnlyCloses out
  Guarded env (book e) risk out = OnlyChecked env risk out.1
  Guarded env (trade e) risk out = OnlyChecked env risk out.1
  Guarded env (order_update upd) risk out = out.1 ≡ []
  Guarded env (rollover sym) risk out = out.1 ≡ []

  -- So for each event of a sequence, in the state that it finds.
  abbrev pub GuardedRun : List (Env W × MdEvent W) → Runner W → Type 0
  GuardedRun [] r = Unit
  GuardedRun ((env, e) ∷ es) r =
      Guarded env e r.risk (dispatch env e r) × GuardedRun es (dispatch env e r).0

  pass_risk-checked :
      (env : Env W) (req : OrderRequest W) (risk : Option (RiskManager W))
      → ((pass_risk env req risk).1 ≡ false)
        ⊎ (((pass_risk env req risk).1 ≡ true)
            × ((m : RiskManager W) → risk ≡ some m → check env.assets env.now req m ≡ passed))
  unfolding pass_risk after_check
  pass_risk-checked env req none = inr (refl, λ m e. absurd (cc))
  pass_risk-checked env req (some r) = elim (Result-cases (check env.assets env.now req r)) [
    | inl fine ↦ inr (rw fine, λ (m : RiskManager W) e. ground (arith, fine, e))
    | inr (e, fails) ↦ inl (rw fails)
  ]

  entry-OnlyChecked :
      (env : Env W) (sig : Signal W) (r : Runner W)
      → is_close sig.direction ≡ false
      → OnlyChecked env r.risk (handle_signal env sig r).1
  unfolding handle_signal
  entry-OnlyChecked env sig r open_ =
      let req = request_of env.account_id sig in
      elim (Bool-cases (is_none sig.direction)) [
        | inl quiet ↦ inl (rw (quiet, handle_signal))
        | inr enters ↦ elim (pass_risk-checked env req r.risk) [
          | inl refused ↦ inl (rw (enters, open_, refused, handle_signal))
          | inr (go, fine) ↦ inr (req, rw (enters, open_, go, handle_signal), fine)
        ]
      ]

  optional-OnlyChecked :
      (env : Env W) (out : Confluence W × Option (Signal W)) (r : Runner W)
      → ((sig : Signal W) → out.1 ≡ some sig → is_close sig.direction ≡ false)
      → OnlyChecked env r.risk (handle_optional env out r).1
  unfolding handle_optional
  optional-OnlyChecked env (s, none) r entry = inl refl
  optional-OnlyChecked env (s, some sig) r entry =
      entry-OnlyChecked env sig (record r { strategy = s }) (entry sig refl)

  exit-OnlyCloses :
      (env : Env W) (sig : Signal W) (r : Runner W)
      → (sig.direction ≡ Direction.no_trade) ⊎ ClosesAll r.strategy sig
      → OnlyCloses (handle_signal env sig r)
  unfolding request_of order_side
  exit-OnlyCloses env sig r (inl quiet) = rw (handle-no_trade env sig r quiet) (inl refl)
  exit-OnlyCloses env sig r (inr (dir, qty, own)) =
      rw (handle_close env sig r dir)
        (inr (request_of env.account_id sig, refl, (own, qty, rw dir)))

  pub dispatch-Guarded :
      (env : Env W) (e : MdEvent W) (r : Runner W) → Guarded env e r.risk (dispatch env e r)
  unfolding dispatch Confluence.on_book_event Confluence.on_trade_event
  dispatch-Guarded env (book e) r =
      optional-OnlyChecked env (Confluence.on_book_event e r.strategy) r
        (try_enter-not_close e.ts _)
  dispatch-Guarded env (trade e) r =
      optional-OnlyChecked env (Confluence.on_trade_event e r.strategy) r
        (try_enter-not_close e.ts _)
  dispatch-Guarded env (quote q) r =
      let out = Confluence.on_quote q (Confluence.update_bbo q.bid q.ask r.strategy) in
      exit-OnlyCloses env out.1 (record r { strategy = out.0 })
        (on_quote_closes q (Confluence.update_bbo q.bid q.ask r.strategy))
  dispatch-Guarded env (order_update upd) r = refl
  dispatch-Guarded env (rollover sym) r = refl

  -- Whatever the sequence of events: a book event or a trade sends nothing, or one order that passes
  -- every check of the risk manager as it is then, if there is one; a quote sends nothing, or one sell
  -- over the whole position; order updates and rollovers send nothing.
  pub drain-GuardedRun : (es : List (Env W × MdEvent W)) (r : Runner W) → GuardedRun es r
  drain-GuardedRun [] r = tt
  drain-GuardedRun ((env, e) ∷ es) r =
      (dispatch-Guarded env e r, drain-GuardedRun es (dispatch env e r).0)

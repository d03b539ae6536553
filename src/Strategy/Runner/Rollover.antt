-- ===== src/Strategy/Runner/Rollover.antt =====
-- What a rollover of src/strategy/strategy_runner.hpp leaves of the strategy, which keeps the symbol
-- that it was made with.
use finam_tradebot.Prelude.{ℕ, ◌≡◌, refl, false, none, List, [], ◌∷◌, arith}
use finam_tradebot.Core.Types.{Result, ok, err, Symbol, symbol_eq, Bar, Quote, OrderRequest}
use finam_tradebot.Double.{Double}
use finam_tradebot.Strategy.Confluence
use finam_tradebot.Strategy.Confluence.{Confluence}
use finam_tradebot.Strategy.SessionContext
use finam_tradebot.Strategy.Runner.{
  Runner, Env, MdEvent, book, trade, quote, order_update, rollover, handle_signal, handle_optional,
  dispatch, drain, dispatch_rollover, load_history, feed_bars, on_subscribed_bar,
}

-- Another symbol than `old`.
abbrev pub IsForeign : Symbol → Symbol → Type 0
IsForeign old sym = symbol_eq sym old ≡ false

IsForeign-own :
    {old own : Symbol} (sym : Symbol) → own ≡ old → IsForeign old sym → IsForeign own sym
IsForeign-own sym e f = rw e f

module _ {W : Type 0} ⦃d : Double W⦄ (old : Symbol) where
  abbrev pub AllForeign : List (Bar W) → Type 0
  AllForeign [] = Unit
  AllForeign (b ∷ bs) = IsForeign old b.symbol × AllForeign bs

  abbrev pub ForeignHistory : Result (List (Bar W)) → Type 0
  ForeignHistory (ok bars) = AllForeign bars
  ForeignHistory (err e) = Unit

  -- No quote and no bar of the old symbol.
  abbrev pub ForeignEvent : Env W × MdEvent W → Type 0
  ForeignEvent (env, quote q) = IsForeign old q.symbol
  ForeignEvent (env, rollover sym) = ForeignHistory (env.get_bars sym env.now)
  ForeignEvent (env, book e) = Unit
  ForeignEvent (env, trade e) = Unit
  ForeignEvent (env, order_update upd) = Unit

  abbrev pub ForeignEvents : List (Env W × MdEvent W) → Type 0
  ForeignEvents [] = Unit
  ForeignEvents (e ∷ es) = ForeignEvent e × ForeignEvents es

  -- The strategy waits for the opening range of the old symbol.
  abbrev IsDeaf : Confluence W → Type 0
  IsDeaf s = (s.cfg.symbol ≡ old) × (s.session_ctx.orb_finalized ≡ false)

  on_bar-foreign :
      (b : Bar W) (s : Confluence W)
      → IsForeign s.cfg.symbol b.symbol
      → Confluence.on_bar b s ≡ (s, Confluence.no_signal)
  unfolding Confluence.on_bar
  on_bar-foreign b s f = rw f

  feed_bars-IsDeaf :
      (bars : List (Bar W)) (s : Confluence W)
      → IsDeaf s
      → AllForeign bars
      → IsDeaf (feed_bars bars s)
  unfolding feed_bars
  feed_bars-IsDeaf [] s deaf f = deaf
  feed_bars-IsDeaf (b ∷ bs) s deaf f =
      let same = on_bar-foreign b s (IsForeign-own b.symbol deaf.0 f.0) in
      feed_bars-IsDeaf bs (Confluence.on_bar b s).0 (rw same deaf) f.1

  load_history-IsDeaf :
      (h : Result (List (Bar W))) (s : Confluence W)
      → IsDeaf s
      → ForeignHistory h
      → IsDeaf (load_history h s)
  unfolding load_history
  load_history-IsDeaf (ok bars) s deaf f = feed_bars-IsDeaf bars s deaf f
  load_history-IsDeaf (err e) s deaf f = deaf

  rollover-IsDeaf :
      (env : Env W) (sym : Symbol) (r : Runner W)
      → r.strategy.cfg.symbol ≡ old
      → ForeignHistory (env.get_bars sym env.now)
      → IsDeaf (dispatch_rollover env sym r).strategy
  unfolding dispatch_rollover Confluence.on_session_open SessionContext.session_reset
  rollover-IsDeaf env sym r e f = load_history-IsDeaf (env.get_bars sym env.now) _ (e, refl) f

  active_rollover :
      (env : Env W) (new : Symbol) (r : Runner W)
      → (dispatch_rollover env new r).active_symbol ≡ new
  unfolding dispatch_rollover
  active_rollover env new r = refl

  try_enter-IsDeaf : (ts : ℕ) (s : Confluence W) → IsDeaf s → Confluence.try_enter ts s ≡ (s, none)
  unfolding Confluence.try_enter Confluence.entry_blocked
  try_enter-IsDeaf ts s deaf = ground arith

  on_quote-foreign :
      (q : Quote W) (s : Confluence W)
      → IsForeign s.cfg.symbol q.symbol
      → Confluence.on_quote q s ≡ (s, Confluence.no_signal)
  unfolding Confluence.on_quote
  on_quote-foreign q s f = rw f

  -- The outcome of a step: still deaf, and nothing sent.
  abbrev StaysDeaf : Runner W × List (OrderRequest W) → Type 0
  StaysDeaf (r, sent) = IsDeaf r.strategy × (sent ≡ [])

  try_enter-StaysDeaf :
      (env : Env W) (ts : ℕ) (s : Confluence W) (r : Runner W)
      → IsDeaf s
      → StaysDeaf (handle_optional env (Confluence.try_enter ts s) r)
  unfolding handle_optional
  try_enter-StaysDeaf env ts s r deaf = rw (try_enter-IsDeaf ts s deaf) (deaf, refl)

  quote-StaysDeaf :
      (env : Env W) (q : Quote W) (s : Confluence W) (r : Runner W)
      → IsDeaf s
      → IsForeign old q.symbol
      → let out = Confluence.on_quote q s in
        StaysDeaf (handle_signal env out.1 (record r { strategy = out.0 }))
  unfolding handle_signal
  quote-StaysDeaf env q s r deaf f =
      rw (on_quote-foreign q s (IsForeign-own q.symbol deaf.0 f)) (deaf, refl)

  dispatch-StaysDeaf :
      (env : Env W) (e : MdEvent W) (r : Runner W)
      → IsDeaf r.strategy
      → ForeignEvent (env, e)
      → StaysDeaf (dispatch env e r)
  unfolding dispatch Confluence.on_book_event Confluence.on_trade_event Confluence.on_order_update
      Confluence.update_bbo
  dispatch-StaysDeaf env (book e) r deaf f = try_enter-StaysDeaf env e.ts _ r deaf
  dispatch-StaysDeaf env (trade e) r deaf f = try_enter-StaysDeaf env e.ts _ r deaf
  dispatch-StaysDeaf env (quote q) r deaf f =
      quote-StaysDeaf env q (Confluence.update_bbo q.bid q.ask r.strategy) r deaf f
  dispatch-StaysDeaf env (order_update upd) r deaf f = ground arith
  dispatch-StaysDeaf env (rollover sym) r deaf f = (rollover-IsDeaf env sym r deaf.0 f, refl)

  drain-StaysDeaf :
      (es : List (Env W × MdEvent W)) (r : Runner W)
      → IsDeaf r.strategy
      → ForeignEvents es
      → StaysDeaf (drain es r)
  unfolding drain
  drain-StaysDeaf [] r deaf f = (deaf, refl)
  drain-StaysDeaf ((env, e) ∷ es) r deaf f =
      let (deaf₁, sent₁) = dispatch-StaysDeaf env e r deaf f.0 in
      let (deaf₂, sent₂) = drain-StaysDeaf es (dispatch env e r).0 deaf₁ f.1 in
      (deaf₂, rw (sent₁, sent₂))

  -- After a rollover from the symbol `old` the runner is active on the new symbol, but its strategy
  -- still reads `old` alone. As long as no quote and no loaded bar carries `old`, no sequence of
  -- events sends an order and no bar changes the strategy.
  pub rollover_deaf :
      (env : Env W) (new : Symbol) (es : List (Env W × MdEvent W)) (bar : Bar W) (r : Runner W)
      → r.strategy.cfg.symbol ≡ old
      → ForeignHistory (env.get_bars new env.now)
      → ForeignEvents es
      → IsForeign old bar.symbol
      → let r₁ = dispatch_rollover env new r in
        (r₁.active_symbol ≡ new)
        × ((drain es r₁).1 ≡ [])
        × (on_subscribed_bar bar (drain es r₁).0 ≡ (drain es r₁).0)
  unfolding on_subscribed_bar
  rollover_deaf env new es bar r own history events foreign =
      let (deaf, sent) =
        drain-StaysDeaf es (dispatch_rollover env new r) (rollover-IsDeaf env new r own history)
          events in
      (
        active_rollover env new r,
        sent,
        rw (
            on_bar-foreign bar (drain es (dispatch_rollover env new r)).0.strategy
              (IsForeign-own bar.symbol deaf.0 foreign)),
      )

-- ===== src/Strategy/Runner/Blocked.antt =====
-- A session of src/strategy/strategy_runner.hpp that a quote has opened.
use finam_tradebot.Prelude.{ℕ, ◌≤◌, ◌≡◌, refl, sym, true, List, [], ◌∷◌, arith}
use finam_tradebot.Prelude.Int.{negsuc}
use finam_tradebot.Core.Types.{Symbol, symbol_eq, Quote, Bar, OrderUpdate, OrderRequest}
use finam_tradebot.Double.{Double}
use finam_tradebot.Strategy.OfiTypes.{BookLevelEvent, TradeEvent}
use finam_tradebot.Strategy.SessionContext
use finam_tradebot.Strategy.SessionContext.{SessionContext, no_bias, to_utc_minutes}
use finam_tradebot.Strategy.ConfluenceState.{intraday}
use finam_tradebot.Strategy.Confluence
use finam_tradebot.Strategy.Confluence.{Confluence, Config}
use finam_tradebot.Strategy.Confluence.Opening.{
  OpensSession, handle-opening, observe-opening, on_quote-own, try_enter-no_bias, no_bias_of_range,
}
use finam_tradebot.Strategy.Runner.{
  Runner, Env, MdEvent, book, trade, quote, order_update, rollover, handle_optional, dispatch,
  on_subscribed_bar,
}
use finam_tradebot.Strategy.Runner.Position.{
  Happening, popped, subscribed, all_happen, strategy-handle_signal,
}

module _ {W : Type 0} ⦃d : Double W⦄ where
  -- Not before the session of the day, if it is in the strategy's symbol.
  abbrev pub FromOpen : Config W → Symbol → ℕ → Type 0
  FromOpen c sym ts =
      symbol_eq sym c.symbol ≡ true → c.session_cfg.session_open_utc_min ≤ to_utc_minutes ts

  abbrev pub StaysOpen : Config W → MdEvent W → Type 0
  StaysOpen c (quote q) = FromOpen c q.symbol q.ts
  StaysOpen c (rollover sym) = ⊥
  StaysOpen c (book e) = Unit
  StaysOpen c (trade e) = Unit
  StaysOpen c (order_update upd) = Unit

  -- The session goes on: no quote and no intraday bar of the strategy's symbol comes from before it,
  -- and no rollover comes.
  abbrev pub SameSession : Config W → List (Happening W) → Type 0
  SameSession c [] = Unit
  SameSession c (popped env e ∷ hs) = StaysOpen c e × SameSession c hs
  SameSession c (subscribed b ∷ hs) =
      ((Confluence.detect_timeframe b.timeframe ≡ intraday) → FromOpen c b.symbol b.ts)
      × SameSession c hs

  -- The session is open, and its range has been decided without a bias.
  abbrev IsBlocked : Config W → Confluence W → Type 0
  IsBlocked c s =
      (s.cfg ≡ c)
      × (s.session_opened_today ≡ true)
      × (s.session_ctx.bias ≡ no_bias)
      × (s.session_ctx.orb_finalized ≡ true)

  handle-open :
      (ts : ℕ) (s : Confluence W)
      → s.session_opened_today ≡ true
      → s.cfg.session_cfg.session_open_utc_min ≤ to_utc_minutes ts
      → Confluence.handle_session_open ts s ≡ s
  unfolding Confluence.handle_session_open
  handle-open ts s opened late = ground arith

  on_daily_bar-keeps :
      (b : Bar W) (x : SessionContext W)
      → let x' = SessionContext.on_daily_bar b x in
        (x'.bias ≡ x.bias) × (x'.orb_finalized ≡ x.orb_finalized)
  unfolding SessionContext.on_daily_bar SessionContext.update_nr7 SessionContext.update_atr
      SessionContext.push_range
  on_daily_bar-keeps b x = ground arith

  on_intraday_bar-keeps :
      (b : Bar W) (x : SessionContext W)
      → x.orb_finalized ≡ true
      → SessionContext.on_intraday_bar b x ≡ x
  unfolding SessionContext.on_intraday_bar
  on_intraday_bar-keeps b x done = rw done

  on_bar-IsBlocked :
      (c : Config W) (b : Bar W) (s : Confluence W)
      → ((Confluence.detect_timeframe b.timeframe ≡ intraday) → FromOpen c b.symbol b.ts)
      → IsBlocked c s
      → IsBlocked c (Confluence.on_bar b s).0
  unfolding Confluence.on_bar
  on_bar-IsBlocked c b s late blocked = ground (
    arith,
    late,
    blocked,
    handle-open b.ts s,
    on_daily_bar-keeps b s.session_ctx,
    on_intraday_bar-keeps b s.session_ctx,
  )

  on_quote-IsBlocked :
      (c : Config W) (q : Quote W) (s : Confluence W)
      → FromOpen c q.symbol q.ts
      → IsBlocked c s
      → IsBlocked c (Confluence.on_quote q s).0
  unfolding Confluence.on_quote Confluence.observe_quote
  on_quote-IsBlocked c q s late blocked = ground (arith, late, blocked, handle-open q.ts s)

  -- Nothing is sent, and the strategy stays blocked.
  abbrev StaysBlocked : Config W → Runner W × List (OrderRequest W) → Type 0
  StaysBlocked c (r, sent) = IsBlocked c r.strategy × (sent ≡ [])

  entry-StaysBlocked :
      (c : Config W) (env : Env W) (ts : ℕ) (s : Confluence W) (r : Runner W)
      → IsBlocked c s
      → StaysBlocked c (handle_optional env (Confluence.try_enter ts s) r)
  unfolding handle_optional
  entry-StaysBlocked c env ts s r blocked = rw (try_enter-no_bias ts s blocked.2) (blocked, refl)

  book-StaysBlocked :
      (c : Config W) (env : Env W) (r : Runner W)
      → IsBlocked c r.strategy
      → (e : BookLevelEvent W) → StaysBlocked c (dispatch env (book e) r)
  unfolding dispatch Confluence.on_book_event
  book-StaysBlocked c env r blocked e = entry-StaysBlocked c env e.ts _ r blocked

  trade-StaysBlocked :
      (c : Config W) (env : Env W) (r : Runner W)
      → IsBlocked c r.strategy
      → (e : TradeEvent W) → StaysBlocked c (dispatch env (trade e) r)
  unfolding dispatch Confluence.on_trade_event
  trade-StaysBlocked c env r blocked e = entry-StaysBlocked c env e.ts _ r blocked

  order_update-IsBlocked :
      (c : Config W) (upd : OrderUpdate W) (s : Confluence W)
      → IsBlocked c s
      → IsBlocked c (Confluence.on_order_update upd s)
  unfolding Confluence.on_order_update
  order_update-IsBlocked c upd s blocked = ground arith

  dispatch-IsBlocked :
      (c : Config W) (env : Env W) (e : MdEvent W) (r : Runner W)
      → StaysOpen c e
      → IsBlocked c r.strategy
      → IsBlocked c (dispatch env e r).0.strategy
  unfolding dispatch Confluence.update_bbo
  dispatch-IsBlocked c env (book e) r late blocked = (book-StaysBlocked c env r blocked e).0
  dispatch-IsBlocked c env (trade e) r late blocked = (trade-StaysBlocked c env r blocked e).0
  dispatch-IsBlocked c env (quote q) r late blocked =
      let out = Confluence.on_quote q (Confluence.update_bbo q.bid q.ask r.strategy) in
      rw (strategy-handle_signal env out.1 (record r { strategy = out.0 }))
        (on_quote-IsBlocked c q (Confluence.update_bbo q.bid q.ask r.strategy) late blocked)
  dispatch-IsBlocked c env (order_update upd) r late blocked =
      order_update-IsBlocked c upd r.strategy blocked
  dispatch-IsBlocked c env (rollover sym) r late blocked = absurd late

  all_happen-IsBlocked :
      (c : Config W) (hs : List (Happening W)) (r : Runner W)
      → SameSession c hs
      → IsBlocked c r.strategy
      → IsBlocked c (all_happen hs r).strategy
  unfolding on_subscribed_bar
  all_happen-IsBlocked c [] r late blocked = blocked
  all_happen-IsBlocked c (popped env e ∷ hs) r late blocked =
      all_happen-IsBlocked c hs (dispatch env e r).0 late.1
        (dispatch-IsBlocked c env e r late.0 blocked)
  all_happen-IsBlocked c (subscribed b ∷ hs) r late blocked =
      all_happen-IsBlocked c hs (on_subscribed_bar b r) late.1
        (on_bar-IsBlocked c b r.strategy late.0 blocked)

  observe-frame :
      (q : Quote W) (s : Confluence W)
      → OpensSession q s
      → let s' = Confluence.observe_quote q s in (s'.cfg ≡ s.cfg) × (s'.session_opened_today ≡ true)
  unfolding Confluence.observe_quote Confluence.on_session_open
  observe-frame q s o = rw (handle-opening q s o) (ground arith)

  opening-IsBlocked :
      (env : Env W) (q : Quote W) (r : Runner W)
      → d.lt d.lowest (d.literal (negsuc 99_999_999) 0) ≡ true
      → OpensSession q r.strategy
      → IsBlocked r.strategy.cfg (dispatch env (quote q) r).0.strategy
  unfolding dispatch Confluence.update_bbo
  opening-IsBlocked env q r low o =
      let s = Confluence.update_bbo q.bid q.ask r.strategy in
      let out = Confluence.on_quote q s in
      let opens : OpensSession q s = record {
        own = o.own;
        fresh = o.fresh;
        started = o.started;
        early = o.early;
      } in
      let (kept, opened) = observe-frame q s opens in
      let (bias, done) =
        no_bias_of_range q (Confluence.observe_quote q s) s.session_ctx (observe-opening q s opens)
          low in
      rw (strategy-handle_signal env out.1 (record r { strategy = out.0 }), on_quote-own q s o.own)
        (kept, opened, bias, done)

  -- When a quote opens the session, it also ends the opening range before any bar, without a bias.
  -- Then, whatever events and bars follow as long as that session goes on, there is no bias, and no
  -- book event and no trade sends an order, if the lowest double is below -1e8.
  pub opening_quote_blocks :
      (env : Env W) (q : Quote W) (hs : List (Happening W)) (r : Runner W)
      → d.lt d.lowest (d.literal (negsuc 99_999_999) 0) ≡ true
      → OpensSession q r.strategy
      → SameSession r.strategy.cfg hs
      → let r' = all_happen hs (dispatch env (quote q) r).0 in
        (r'.strategy.session_ctx.bias ≡ no_bias)
        × ((env' : Env W) (e : BookLevelEvent W) → (dispatch env' (book e) r').1 ≡ [])
        × ((env' : Env W) (e : TradeEvent W) → (dispatch env' (trade e) r').1 ≡ [])
  opening_quote_blocks env q hs r low o late =
      let c = r.strategy.cfg in
      let r₁ = (dispatch env (quote q) r).0 in
      let blocked = all_happen-IsBlocked c hs r₁ late (opening-IsBlocked env q r low o) in
      (
        blocked.2,
        λ env' e. (book-StaysBlocked c env' (all_happen hs r₁) blocked e).1,
        λ env' e. (trade-StaysBlocked c env' (all_happen hs r₁) blocked e).1,
      )

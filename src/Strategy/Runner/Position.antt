-- ===== src/Strategy/Runner/Position.antt =====
-- The position that the strategy of src/strategy/strategy_runner.hpp believes it holds.
use finam_tradebot.Prelude.{
  ℕ, ◌+◌, ◌≡◌, refl, sym, ◌∙◌, ap, Bool, false, ◌&&◌, Option, none, some, List, [], ◌∷◌, arith, leb,
  ltb, if◌then◌else◌,
}
use finam_tradebot.Prelude.Int.{ℤ, pos, ◌+ℤ◌, ◌-ℤ◌, +ℤ_assoc, int_laws}
use finam_tradebot.Core.Types.{Symbol, symbol_eq, Signal, Direction, Quote, Bar, OrderUpdate}
use finam_tradebot.Double.{Double}
use finam_tradebot.Strategy.SessionContext.{to_utc_minutes}
use finam_tradebot.Strategy.Confluence
use finam_tradebot.Strategy.ConfluenceState.{intraday}
use finam_tradebot.Strategy.Confluence.{Confluence, Config, is_filled, is_buy}
use finam_tradebot.Strategy.Confluence.Opening.{OpensSession, handle-opening, on_quote-own}
use finam_tradebot.Strategy.Runner.{
  Runner, Env, MdEvent, book, trade, quote, order_update, rollover, handle_signal, handle_optional,
  dispatch, on_subscribed_bar,
}

add_neg : (a b : ℤ) → a -ℤ b ≡ a +ℤ (pos 0 -ℤ b)
add_neg a b = grind (arith, int_laws)

add_zero : (a : ℤ) → a +ℤ pos 0 ≡ a
add_zero a = grind (arith, int_laws)

zero_add : (a : ℤ) → pos 0 +ℤ a ≡ a
zero_add a = grind (arith, int_laws)

-- What changes the strategy: an event of the queue, or a bar of a subscription, which does not pass
-- through the queue.
pub data Happening (W : Type 0) : Type 0 where
  popped : Env W → MdEvent W → Happening W
  subscribed : Bar W → Happening W

module _ {W : Type 0} ⦃d : Double W⦄ where
  -- A filled update moves the position by its quantity, with the sign of its side.
  abbrev pub change : MdEvent W → ℤ
  change (order_update upd) =
      if is_filled upd.status
      then (if is_buy upd.side then upd.qty_filled else pos 0 -ℤ upd.qty_filled)
      else pos 0
  change (quote q) = pos 0
  change (book e) = pos 0
  change (trade e) = pos 0
  change (rollover sym) = pos 0

  abbrev pub happens : Happening W → Runner W → Runner W
  happens (popped env e) r = (dispatch env e r).0
  happens (subscribed b) r = on_subscribed_bar b r

  abbrev pub all_happen : List (Happening W) → Runner W → Runner W
  all_happen [] r = r
  all_happen (h ∷ hs) r = all_happen hs (happens h r)

  abbrev pub changes : List (Happening W) → ℤ
  changes [] = pos 0
  changes (popped env e ∷ hs) = change e +ℤ changes hs
  changes (subscribed b ∷ hs) = pos 0 +ℤ changes hs

  -- A quote or an intraday bar of the strategy's symbol in the first five minutes of a session.
  abbrev pub opens_at : Config W → Symbol → ℕ → Bool
  opens_at c sym ts =
      let opening = c.session_cfg.session_open_utc_min in
      symbol_eq sym c.symbol
      && (leb opening (to_utc_minutes ts) && ltb (to_utc_minutes ts) (opening + 5))

  abbrev pub Continuing : Config W → MdEvent W → Type 0
  Continuing c (quote q) = opens_at c q.symbol q.ts ≡ false
  Continuing c (rollover sym) = ⊥
  Continuing c (book e) = Unit
  Continuing c (trade e) = Unit
  Continuing c (order_update upd) = Unit

  -- No quote and no intraday bar opens a session, and no rollover comes.
  abbrev pub Continues : Config W → List (Happening W) → Type 0
  Continues c [] = Unit
  Continues c (popped env e ∷ hs) = Continuing c e × Continues c hs
  Continues c (subscribed b ∷ hs) =
      ((Confluence.detect_timeframe b.timeframe ≡ intraday) → opens_at c b.symbol b.ts ≡ false)
      × Continues c hs

  abbrev Moves : ℤ → Confluence W → Confluence W → Type 0
  Moves z s s' = (s'.cfg ≡ s.cfg) × (s'.position ≡ s.position +ℤ z)

  pub strategy-handle_signal :
      (env : Env W) (sig : Signal W) (r : Runner W)
      → (handle_signal env sig r).0.strategy ≡ r.strategy
  unfolding handle_signal
  strategy-handle_signal env sig r = ground arith

  pub strategy-handle_optional :
      (env : Env W) (out : Confluence W × Option (Signal W)) (r : Runner W)
      → (handle_optional env out r).0.strategy ≡ out.0
  unfolding handle_optional
  strategy-handle_optional env (s, none) r = refl
  strategy-handle_optional env (s, some sig) r =
      strategy-handle_signal env sig (record r { strategy = s })

  try_enter-Moves : (ts : ℕ) (s : Confluence W) → Moves (pos 0) s (Confluence.try_enter ts s).0
  unfolding Confluence.try_enter
  try_enter-Moves ts s = ground (arith, add_zero s.position)

  on_quote-Moves :
      (q : Quote W) (s : Confluence W)
      → opens_at s.cfg q.symbol q.ts ≡ false
      → Moves (pos 0) s (Confluence.on_quote q s).0
  unfolding Confluence.on_quote Confluence.observe_quote Confluence.handle_session_open
  on_quote-Moves q s quiet = ground (arith, add_zero s.position)

  on_bar-Moves :
      (b : Bar W) (s : Confluence W)
      → ((Confluence.detect_timeframe b.timeframe ≡ intraday)
          → opens_at s.cfg b.symbol b.ts ≡ false)
      → Moves (pos 0) s (Confluence.on_bar b s).0
  unfolding Confluence.on_bar Confluence.handle_session_open
  on_bar-Moves b s quiet = ground (arith, add_zero s.position, quiet)

  on_order_update-Moves :
      (upd : OrderUpdate W) (s : Confluence W)
      → Moves (change (order_update upd)) s (Confluence.on_order_update upd s)
  unfolding Confluence.on_order_update
  on_order_update-Moves upd s =
      ground (arith, add_zero s.position, add_neg s.position upd.qty_filled)

  dispatch-Moves :
      (env : Env W) (e : MdEvent W) (r : Runner W)
      → Continuing r.strategy.cfg e
      → Moves (change e) r.strategy (dispatch env e r).0.strategy
  unfolding dispatch Confluence.on_book_event Confluence.on_trade_event Confluence.update_bbo
  dispatch-Moves env (book e) r c =
      rw (strategy-handle_optional env (Confluence.on_book_event e r.strategy) r)
        (try_enter-Moves e.ts _)
  dispatch-Moves env (trade e) r c =
      rw (strategy-handle_optional env (Confluence.on_trade_event e r.strategy) r)
        (try_enter-Moves e.ts _)
  dispatch-Moves env (quote q) r c =
      let out = Confluence.on_quote q (Confluence.update_bbo q.bid q.ask r.strategy) in
      rw (strategy-handle_signal env out.1 (record r { strategy = out.0 }))
        (on_quote-Moves q (Confluence.update_bbo q.bid q.ask r.strategy) c)
  dispatch-Moves env (order_update upd) r c = on_order_update-Moves upd r.strategy
  dispatch-Moves env (rollover sym) r c = absurd c

  happens-Moves :
      (h : Happening W) (hs : List (Happening W)) (r : Runner W)
      → Continues r.strategy.cfg (h ∷ hs)
      → Moves (changes (h ∷ [])) r.strategy (happens h r).strategy
  unfolding on_subscribed_bar
  happens-Moves (popped env e) hs r c =
      let (kept, moved) = dispatch-Moves env e r c.0 in
      (kept, moved ∙ ap (λ z. r.strategy.position +ℤ z) (sym (add_zero (change e))))
  happens-Moves (subscribed b) hs r c =
      let (kept, moved) = on_bar-Moves b r.strategy c.0 in
      (kept, moved ∙ ap (λ z. r.strategy.position +ℤ z) (sym (add_zero (pos 0))))

  tail-Continues :
      (c : Config W) (h : Happening W) (hs : List (Happening W))
      → Continues c (h ∷ hs)
      → Continues c hs
  tail-Continues c (popped env e) hs all = all.1
  tail-Continues c (subscribed b) hs all = all.1

  changes-cons :
      (h : Happening W) (hs : List (Happening W))
      → changes (h ∷ []) +ℤ changes hs ≡ changes (h ∷ hs)
  changes-cons (popped env e) hs = ap (λ z. z +ℤ changes hs) (add_zero (change e))
  changes-cons (subscribed b) hs = ap (λ z. z +ℤ changes hs) (add_zero (pos 0))

  all_happen-Moves :
      (hs : List (Happening W)) (r : Runner W)
      → Continues r.strategy.cfg hs
      → Moves (changes hs) r.strategy (all_happen hs r).strategy
  all_happen-Moves [] r c = (refl, sym (add_zero r.strategy.position))
  all_happen-Moves (h ∷ hs) r c =
      let (kept, moved) = happens-Moves h hs r c in
      let (kept₁, moved₁) =
        all_happen-Moves hs (happens h r) (rw kept (tail-Continues r.strategy.cfg h hs c)) in
      (
        kept₁ ∙ kept,
        moved₁
            ∙ ap (λ p. p +ℤ changes hs) moved
            ∙ +ℤ_assoc r.strategy.position (changes (h ∷ [])) (changes hs)
            ∙ ap (λ z. r.strategy.position +ℤ z) (changes-cons h hs),
      )

  -- Whatever the order of the events of the queue and of the bars of the subscriptions: as long as no
  -- quote and no intraday bar of the strategy's symbol comes in the first five minutes of a session,
  -- and no rollover comes, the position moves by the filled updates alone, each with its quantity and
  -- the sign of its side.
  pub all_happen-position :
      (hs : List (Happening W)) (r : Runner W)
      → Continues r.strategy.cfg hs
      → (all_happen hs r).strategy.position ≡ r.strategy.position +ℤ changes hs
  all_happen-position hs r c = (all_happen-Moves hs r c).1

  opening-position :
      (q : Quote W) (s : Confluence W)
      → OpensSession q s
      → (Confluence.observe_quote q s).position ≡ pos 0
  unfolding Confluence.observe_quote Confluence.on_session_open
  opening-position q s o = rw (handle-opening q s o) (ground arith)

  opening-no_trade :
      (q : Quote W) (s : Confluence W)
      → OpensSession q s
      → (Confluence.on_quote q s).1.direction ≡ Direction.no_trade
  unfolding Confluence.on_quote
  opening-no_trade q s o = ground (arith, opening-position q s o, o.own)

  pub handle-no_trade :
      (env : Env W) (sig : Signal W) (r : Runner W)
      → sig.direction ≡ Direction.no_trade
      → handle_signal env sig r ≡ (r, [])
  unfolding handle_signal
  handle-no_trade env sig r e = rw e

  -- A quote that opens the session makes the strategy forget its position, whatever it is, and sends no
  -- order that would close it.
  pub opening_forgets :
      (env : Env W) (q : Quote W) (r : Runner W)
      → OpensSession q r.strategy
      → let (r', sent) = dispatch env (quote q) r in (r'.strategy.position ≡ pos 0) × (sent ≡ [])
  unfolding dispatch Confluence.update_bbo
  opening_forgets env q r o =
      let s = Confluence.update_bbo q.bid q.ask r.strategy in
      let out = Confluence.on_quote q s in
      let opens : OpensSession q s = record {
        own = o.own;
        fresh = o.fresh;
        started = o.started;
        early = o.early;
      } in
      rw
        (
          handle-no_trade env out.1 (record r { strategy = out.0 }) (opening-no_trade q s opens),
          on_quote-own q s o.own,
        )
        (opening-position q s opens, refl)

-- ===== src/Strategy/Confluence/Exit.antt =====
-- When `check_exit` and `on_quote` of src/strategy/confluence_strategy.hpp close a position.
use finam_tradebot.Prelude.{
  ◌≡◌, refl, ◌↔◌, ◌⊎◌, inl, inr, Bool, true, false, not, ◌&&◌, ◌||◌, Option, none, some, arith,
  Option-cases, if◌then◌else◌,
}
use finam_tradebot.Prelude.Int.{pos, negsuc, ltb_ℤ, ◌+ℤ◌, abs}
use finam_tradebot.Prelude.Map.{eqb_ℤ}
use finam_tradebot.Core.Types.{Quote, Signal, Direction}
use finam_tradebot.Double.{Double, ◌⊖◌, ◌⊘◌, ◌≺◌, decimal_lit}
use finam_tradebot.Strategy.OfiTypes.{Vote, long, short, neutral, vote_value}
use finam_tradebot.Strategy.OrderBookState
use finam_tradebot.Strategy.TradeFlow
use finam_tradebot.Strategy.Confluence.{
  Confluence, check_exit, close_signal, pnl_ticks, confluence, flow_reversal, on_quote,
  observe_quote, mid_price, signal_or_none,
}

abbrev both_short : Vote → Vote → Bool
both_short short short = true
both_short short long = false
both_short short neutral = false
both_short long v = false
both_short neutral v = false

abbrev both_long : Vote → Vote → Bool
both_long long long = true
both_long long short = false
both_long long neutral = false
both_long short v = false
both_long neutral v = false

both_short_lem : (a b : Vote) → eqb_ℤ (vote_value a +ℤ vote_value b) (negsuc 1) ≡ both_short a b
unfolding ◌+ℤ◌
both_short_lem short short = refl
both_short_lem short long = refl
both_short_lem short neutral = refl
both_short_lem long short = refl
both_short_lem long long = refl
both_short_lem long neutral = refl
both_short_lem neutral short = refl
both_short_lem neutral long = refl
both_short_lem neutral neutral = refl

both_long_lem : (a b : Vote) → eqb_ℤ (vote_value a +ℤ vote_value b) (pos 2) ≡ both_long a b
unfolding ◌+ℤ◌
both_long_lem short short = refl
both_long_lem short long = refl
both_long_lem short neutral = refl
both_long_lem long short = refl
both_long_lem long long = refl
both_long_lem long neutral = refl
both_long_lem neutral short = refl
both_long_lem neutral long = refl
both_long_lem neutral neutral = refl

module _ {W : Type 0} ⦃d : Double W⦄ where
  -- A position that `check_exit` looks at.
  abbrev pub is_held : Confluence W → Bool
  is_held s = not (eqb_ℤ s.position (pos 0) || (s.entry_price ≺ decimal_lit 1 9))

  abbrev is_beyond : W → Confluence W → Bool
  is_beyond ticks s = (ticks ≺ d.neg s.cfg.sl_ticks) || (s.cfg.tp_ticks ≺ ticks)

  -- A reason to close it. A long position gains what the price has risen since the entry, a short one
  -- what it has fallen.
  abbrev pub must_close : W → Confluence W → Bool
  must_close price s =
      if ltb_ℤ (pos 0) s.position
      then is_beyond ((price ⊖ s.entry_price) ⊘ s.cfg.tick_size) s
        || both_short (OrderBookState.vote s.ob_state) (TradeFlow.vote s.tfi_analyzer)
      else is_beyond ((s.entry_price ⊖ price) ⊘ s.cfg.tick_size) s
        || both_long (OrderBookState.vote s.ob_state) (TradeFlow.vote s.tfi_analyzer)

  must_close_lem :
      (price : W) (s : Confluence W)
      → eqb_ℤ s.position (pos 0) ≡ false
      → must_close price s ≡ (
          (pnl_ticks price s ≺ d.neg s.cfg.sl_ticks)
          || ((s.cfg.tp_ticks ≺ pnl_ticks price s) || flow_reversal s))
  unfolding pnl_ticks flow_reversal confluence
  must_close_lem price s h =
      let book = OrderBookState.vote s.ob_state in
      let flow = TradeFlow.vote s.tfi_analyzer in
      ground (arith, both_short_lem book flow, both_long_lem book flow)

  abbrev pub ClosesAll : Confluence W → Signal W → Type 0
  ClosesAll s sig =
      (sig.direction ≡ Direction.close)
      × (sig.quantity ≡ abs s.position)
      × (sig.symbol ≡ s.cfg.symbol)

  check_exit-none :
      (price : W) (s : Confluence W)
      → check_exit price s ≡ none
      → (is_held s && must_close price s) ≡ false
  unfolding check_exit
  check_exit-none price s e = ground (arith, must_close_lem price s)

  check_exit-some :
      (price : W) (s : Confluence W) {sig : Signal W}
      → check_exit price s ≡ some sig
      → ((is_held s && must_close price s) ≡ true) × ClosesAll s sig
  unfolding check_exit close_signal
  check_exit-some price s e = ground (arith, must_close_lem price s)

  exit_of_tests :
      (price : W) (s : Confluence W)
      → (is_held s && must_close price s) ≡ true
      → (sig : Signal W) × (check_exit price s ≡ some sig) × ClosesAll s sig
  exit_of_tests price s h = elim (Option-cases (check_exit price s)) [
    | inl e ↦ absurd (cc (check_exit-none price s e))
    | inr (sig, e) ↦ (sig, e, (check_exit-some price s e).1)
  ]

  -- `check_exit` gives a signal exactly when a position with an entry price of 1e-9 or more has lost
  -- more than `sl_ticks` or won more than `tp_ticks`, counted in ticks from the entry price, upwards
  -- for a long position and downwards for a short one, or when the votes of the book and of the
  -- trades are both against it; and the signal closes the whole position in the strategy's own
  -- symbol.
  pub check_exit_iff :
      (price : W) (s : Confluence W)
      → ((sig : Signal W) × (check_exit price s ≡ some sig) × ClosesAll s sig)
        ↔ ((is_held s && must_close price s) ≡ true)
  check_exit_iff price s = (λ (sig, e, _). (check_exit-some price s e).0, exit_of_tests price s)

  -- A held position is watched only with a price: while the entry price is below 1e-9, no quote
  -- closes it, whatever the loss, the gain and the flow.
  pub unpriced_exit :
      (price : W) (s : Confluence W)
      → (s.entry_price ≺ decimal_lit 1 9) ≡ true
      → check_exit price s ≡ none
  unfolding check_exit
  unpriced_exit price s h = ground arith

  closes_or_none :
      (o : Option (Signal W)) (s : Confluence W)
      → ((sig : Signal W) → o ≡ some sig → ClosesAll s sig)
      → ((signal_or_none o).direction ≡ Direction.no_trade) ⊎ ClosesAll s (signal_or_none o)
  closes_or_none none s h = inl refl
  closes_or_none (some sig) s h = inr (h sig refl)

  -- `on_quote` gives no signal or one that closes the position that the strategy then holds.
  pub on_quote_closes :
      (q : Quote W) (s : Confluence W)
      → let (s', sig) = on_quote q s in (sig.direction ≡ Direction.no_trade) ⊎ ClosesAll s' sig
  unfolding on_quote
  on_quote_closes q s =
      let s' = observe_quote q s in
      let exit = check_exit (mid_price q) s' in
      ground (arith, closes_or_none exit s' (λ sig e. (check_exit-some (mid_price q) s' e).1))

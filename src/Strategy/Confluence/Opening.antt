-- ===== src/Strategy/Confluence/Opening.antt =====
-- The first quote of a session in src/strategy/confluence_strategy.hpp.
use finam_tradebot.Prelude.{ℕ, ◌+◌, ◌≤◌, ◌<◌, ◌≡◌, true, false, none, arith}
use finam_tradebot.Prelude.Int.{negsuc}
use finam_tradebot.Core.Types.{Quote, symbol_eq}
use finam_tradebot.Double.{Double}
use finam_tradebot.Strategy.SessionContext.{
  SessionContext, no_bias, to_utc_minutes, finalize_orb, session_reset,
}
use finam_tradebot.Strategy.SessionContext.OpeningRange.{empty_range}
use finam_tradebot.Strategy.Confluence.{
  Confluence, on_quote, observe_quote, handle_session_open, on_session_open, try_enter,
  entry_blocked, mid_price,
}

module _ {W : Type 0} ⦃d : Double W⦄ where
  -- The quote is in the strategy's symbol and in the first five minutes of a session that has not
  -- been opened yet.
  pub record OpensSession (q : Quote W) (s : Confluence W) : Type 0 where
    pub own : symbol_eq q.symbol s.cfg.symbol ≡ true
    pub fresh : s.session_opened_today ≡ false
    pub started : s.cfg.session_cfg.session_open_utc_min ≤ to_utc_minutes q.ts
    pub early : to_utc_minutes q.ts < s.cfg.session_cfg.session_open_utc_min + 5

  pub handle-opening :
      (q : Quote W) (s : Confluence W)
      → OpensSession q s
      → handle_session_open q.ts s ≡ on_session_open (record s { session_opened_today = true })
  unfolding handle_session_open
  handle-opening q s o = ground arith

  pub observe-opening :
      (q : Quote W) (s : Confluence W)
      → OpensSession q s
      → (observe_quote q s).session_ctx ≡ finalize_orb (mid_price q) (session_reset s.session_ctx)
  unfolding observe_quote on_session_open session_reset
  observe-opening q s o = rw (handle-opening q s o)

  pub on_quote-own :
      (q : Quote W) (s : Confluence W)
      → symbol_eq q.symbol s.cfg.symbol ≡ true
      → (on_quote q s).0 ≡ observe_quote q s
  unfolding on_quote
  on_quote-own q s own = ground arith

  pub try_enter-no_bias :
      (ts : ℕ) (s : Confluence W) → s.session_ctx.bias ≡ no_bias → try_enter ts s ≡ (s, none)
  unfolding try_enter entry_blocked
  try_enter-no_bias ts s b = ground arith

  pub no_bias_of_range :
      (q : Quote W) (s : Confluence W) (c : SessionContext W)
      → s.session_ctx ≡ finalize_orb (mid_price q) (session_reset c)
      → d.lt d.lowest (d.literal (negsuc 99_999_999) 0) ≡ true
      → (s.session_ctx.bias ≡ no_bias) × (s.session_ctx.orb_finalized ≡ true)
  no_bias_of_range q s c e low = rw e (empty_range c (mid_price q) low)

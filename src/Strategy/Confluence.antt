-- ===== src/Strategy/Confluence.antt =====
-- src/strategy/confluence_strategy.hpp: the strategy, which joins the indicators into signals.
pub mod Entry
pub mod Exit
pub mod Fills
pub mod Opening
pub use finam_tradebot.Strategy.ConfluenceState.{
  Config, Confluence, Timeframe, is_no_bias, is_filled, is_buy, no_signal,
}
unfoldable pub use finam_tradebot.Strategy.ConfluenceState.{detect_timeframe, make}
use finam_tradebot.Strategy.ConfluenceState.{daily, intraday, unknown}
use finam_tradebot.Prelude.{
  ◌+◌, ◌*◌, Bool, true, false, not, ◌&&◌, ◌||◌, Option, none, some, ltb, leb, if◌then◌else◌,
}
use finam_tradebot.Prelude.Int.{ℤ, pos, negsuc, ◌+ℤ◌, ◌-ℤ◌, ltb_ℤ, abs}
use finam_tradebot.Prelude.Map.{eqb_ℤ}
use finam_tradebot.Prelude.Text.{Text, text}
use finam_tradebot.Core.Types.{
  Timestamp, second, symbol_eq, Quote, Bar, OrderUpdate, OrderType, Direction, Signal,
}
use finam_tradebot.Double.{Double, ◌⊕◌, ◌⊖◌, ◌⊗◌, ◌⊘◌, ◌≺◌, nought, decimal_lit}
use finam_tradebot.Strategy.OfiTypes.{
  vote_value, OfiVote, is_strong, is_long, is_short, BookLevelEvent, TradeEvent,
}
use finam_tradebot.Strategy.OrderBookState
use finam_tradebot.Strategy.OrderBookState.{OrderBookState}
use finam_tradebot.Strategy.TradeFlow
use finam_tradebot.Strategy.SpoofFilter
use finam_tradebot.Strategy.SpoofFilter.{SpoofFilter}
use finam_tradebot.Strategy.SessionContext
use finam_tradebot.Strategy.SessionContext.{
  SessionContext, allows_long, allows_short, to_utc_minutes,
}

module _ {W : Type 0} ⦃d : Double W⦄ where
  unfoldable pub on_session_open : Confluence W → Confluence W
  on_session_open s = record s {
    session_ctx = SessionContext.session_reset s.session_ctx;
    tfi_analyzer = TradeFlow.session_reset s.tfi_analyzer;
    spoof_filter = SpoofFilter.session_reset s.spoof_filter;
    ob_state = OrderBookState.reset s.ob_state;
    position = pos 0;
    entry_price = nought;
    last_signal_ts = 0;
  }

  -- The first test opens the session, the second one makes ready for the next day.
  unfoldable pub handle_session_open : Timestamp → Confluence W → Confluence W
  handle_session_open ts s =
      let min_utc = to_utc_minutes ts in
      let opening = s.cfg.session_cfg.session_open_utc_min in
      let s' =
        if not s.session_opened_today && (leb opening min_utc && ltb min_utc (opening + 5))
        then on_session_open (record s { session_opened_today = true })
        else s in
      if ltb min_utc opening then record s' { session_opened_today = false } else s'

  -- `on_bar` always returns `no_signal()`.
  unfoldable pub on_bar : Bar W → Confluence W → Confluence W × Signal W
  on_bar bar s =
      if symbol_eq bar.symbol s.cfg.symbol
      then (elim (detect_timeframe bar.timeframe) [
        | daily ↦
            (record s { session_ctx = SessionContext.on_daily_bar bar s.session_ctx }, no_signal)
        | intraday ↦
            let s' = handle_session_open bar.ts s in
            (
              record s' { session_ctx = SessionContext.on_intraday_bar bar s'.session_ctx },
              no_signal,
            )
        | unknown ↦ (s, no_signal)
      ])
      else (s, no_signal)

  unfoldable pub close_signal : Text → Confluence W → Signal W
  close_signal reason s = record {
    symbol = s.cfg.symbol;
    direction = Direction.close;
    order_type = OrderType.market;
    price = nought;
    quantity = abs s.position;
    reason = reason;
  }

  unfoldable pub pnl_ticks : W → Confluence W → W
  pnl_ticks price s =
      if ltb_ℤ (pos 0) s.position
      then (price ⊖ s.entry_price) ⊘ s.cfg.tick_size
      else (s.entry_price ⊖ price) ⊘ s.cfg.tick_size

  -- The sum of the two votes.
  unfoldable pub confluence : Confluence W → ℤ
  confluence s =
      vote_value (OrderBookState.vote s.ob_state) +ℤ vote_value (TradeFlow.vote s.tfi_analyzer)

  unfoldable pub flow_reversal : Confluence W → Bool
  flow_reversal s =
      (ltb_ℤ (pos 0) s.position && eqb_ℤ (confluence s) (negsuc 1))
      || (ltb_ℤ s.position (pos 0) && eqb_ℤ (confluence s) (pos 2))

  unfoldable pub check_exit : W → Confluence W → Option (Signal W)
  check_exit price s =
      if eqb_ℤ s.position (pos 0) || (s.entry_price ≺ decimal_lit 1 9)
      then none
      else (if pnl_ticks price s ≺ d.neg s.cfg.sl_ticks
          then some (close_signal (text "sl_hit") s)
          else (if s.cfg.tp_ticks ≺ pnl_ticks price s
              then some (close_signal (text "tp_hit") s)
              else (if flow_reversal s
                  then some (close_signal (text "flow_reversal") s)
                  else none)))

  abbrev pub mid_price : Quote W → W
  mid_price q = (q.bid ⊕ q.ask) ⊗ decimal_lit 5 1

  abbrev pub signal_or_none : Option (Signal W) → Signal W
  signal_or_none none = no_signal
  signal_or_none (some sig) = sig

  -- The state after the session test and the end of the opening range.
  unfoldable pub observe_quote : Quote W → Confluence W → Confluence W
  observe_quote q s =
      let s' = handle_session_open q.ts s in
      if s'.session_ctx.orb_finalized
      then s'
      else record s' { session_ctx = SessionContext.finalize_orb (mid_price q) s'.session_ctx }

  unfoldable pub on_quote : Quote W → Confluence W → Confluence W × Signal W
  on_quote q s =
      if symbol_eq q.symbol s.cfg.symbol
      then (let s' = observe_quote q s in
          if eqb_ℤ s'.position (pos 0)
          then (s', no_signal)
          else (s', signal_or_none (check_exit (mid_price q) s')))
      else (s, no_signal)

  unfoldable pub on_order_update : OrderUpdate W → Confluence W → Confluence W
  on_order_update upd s =
      if is_filled upd.status
      then record s {
        entry_price = if eqb_ℤ s.position (pos 0) then upd.price else s.entry_price;
        position =
            if is_buy upd.side then s.position +ℤ upd.qty_filled else s.position -ℤ upd.qty_filled;
      }
      else s

  unfoldable pub current_vote : Confluence W → OfiVote
  current_vote s = record {
    mlofi = OrderBookState.vote s.ob_state;
    tfi = TradeFlow.vote s.tfi_analyzer;
    confluence = confluence s;
  }

  unfoldable pub build_entry : OfiVote → Confluence W → Signal W
  build_entry v s = record {
    symbol = s.cfg.symbol;
    direction = if is_long v then Direction.buy else Direction.sell;
    order_type = OrderType.market;
    price = nought;
    quantity = d.truncate (d.of_ℤ s.cfg.base_qty ⊗ SessionContext.size_multiplier s.session_ctx);
    reason = if is_long v then text "confluence_long" else text "confluence_short";
  }

  -- The early returns of `try_enter`, in their order.
  unfoldable pub entry_blocked : Timestamp → Confluence W → Bool
  entry_blocked ts s =
      not (eqb_ℤ s.position (pos 0))
      || (not s.session_ctx.orb_finalized
          || (is_no_bias s.session_ctx.bias
              || (ltb ts (s.last_signal_ts + 5 * second)
                  || (not (is_strong (current_vote s))
                      || ((is_long (current_vote s) && not (allows_long s.session_ctx.bias))
                          || ((is_short (current_vote s) && not (allows_short s.session_ctx.bias))
                              || (SpoofFilter.is_spoofed s.current_bid ts s.spoof_filter
                                  || SpoofFilter.is_spoofed s.current_ask ts s.spoof_filter)))))))

  unfoldable pub try_enter : Timestamp → Confluence W → Confluence W × Option (Signal W)
  try_enter ts s =
      if entry_blocked ts s
      then (s, none)
      else (let s' = record s { last_signal_ts = ts } in
          (s', some (build_entry (current_vote s) s')))

  unfoldable pub update_spoof_on_book :
      BookLevelEvent W → SpoofFilter.Config W → SpoofFilter W → SpoofFilter W
  update_spoof_on_book e c f₀ =
      let f₁ =
        if c.min_large_qty ≺ (e.new_bid_size ⊖ e.old_bid_size)
        then SpoofFilter.on_large_add e.price e.ts f₀
        else f₀ in
      let f₂ =
        if c.min_large_qty ≺ (e.new_ask_size ⊖ e.old_ask_size)
        then SpoofFilter.on_large_add e.price e.ts f₁
        else f₁ in
      let f₃ =
        if (c.min_large_qty ≺ e.old_bid_size) && (e.new_bid_size ≺ decimal_lit 1 9)
        then SpoofFilter.on_large_cancel e.price e.ts f₂
        else f₂ in
      if (c.min_large_qty ≺ e.old_ask_size) && (e.new_ask_size ≺ decimal_lit 1 9)
      then SpoofFilter.on_large_cancel e.price e.ts f₃
      else f₃

  unfoldable pub on_book_event : BookLevelEvent W → Confluence W → Confluence W × Option (Signal W)
  on_book_event e s = try_enter e.ts (record s {
    spoof_filter = update_spoof_on_book e s.cfg.spoof_cfg s.spoof_filter;
    ob_state = OrderBookState.on_book_event e s.ob_state;
  })

  unfoldable pub on_trade_event : TradeEvent W → Confluence W → Confluence W × Option (Signal W)
  on_trade_event e s =
      try_enter e.ts
        (record s { current_mid = e.price; tfi_analyzer = TradeFlow.on_trade e s.tfi_analyzer })

  unfoldable pub update_bbo : W → W → Confluence W → Confluence W
  update_bbo bid ask s = record s {
    current_bid = bid;
    current_ask = ask;
    current_mid = (bid ⊕ ask) ⊗ decimal_lit 5 1;
  }

-- ===== src/Strategy/Runner/Orphans.antt =====
-- The orders of the old contract after a rollover of src/strategy/strategy_runner.hpp.
use finam_tradebot.Prelude.{◌≡◌, ◌∙◌, ap, false, none, some, arith}
use finam_tradebot.Prelude.Int.{ℤ}
use finam_tradebot.Prelude.Text.{is_empty, stol}
use finam_tradebot.Core.Types.{Timestamp, Symbol, symbol_eq, OrderUpdate}
use finam_tradebot.Double.{Double}
use finam_tradebot.Order.OrderClient.{
  OrderClient, OrderState, StreamOrder, find, or_zero, symbol_of, streamed, upsert, on_stream_order,
}
use finam_tradebot.Strategy.Runner.{Runner, Env, dispatch_rollover, on_update}

module _ {W : Type 0} ⦃d : Double W⦄ where
  symbol_of-known :
      (k : ℤ) (c : OrderClient W) (s : OrderState W) → find k c ≡ some s → symbol_of k c ≡ s.symbol
  unfolding symbol_of find
  symbol_of-known k c s known = ground (arith, known)

  on_update-foreign :
      (upd : OrderUpdate W) (r : Runner W)
      → is_empty upd.symbol.security_code ≡ false
      → symbol_eq upd.symbol r.active_symbol ≡ false
      → on_update upd r ≡ (r, none)
  unfolding on_update
  on_update-foreign upd r named foreign = rw (foreign, named, on_update)

  -- After a rollover to another contract the callback of the runner drops every update of the stream
  -- for an order of the old contract: no fill of it reaches the risk manager or the strategy.
  pub rollover_orphans :
      (env : Env W) (new : Symbol) (r : Runner W)
      → (o : StreamOrder) (now : Timestamp) (c : OrderClient W) (s : OrderState W)
      → find (or_zero (stol o.client_order_id)) c ≡ some s
      → s.symbol ≡ r.active_symbol
      → is_empty r.active_symbol.security_code ≡ false
      → symbol_eq r.active_symbol new ≡ false
      → (let r' = dispatch_rollover env new r in
          on_update (on_stream_order o now c).1 r' ≡ (r', none))
  unfolding on_stream_order streamed upsert dispatch_rollover
  rollover_orphans env new r o now c s known own named other =
      let same = symbol_of-known (or_zero (stol o.client_order_id)) c s known ∙ own in
      on_update-foreign (on_stream_order o now c).1 (dispatch_rollover env new r)
        (ap (λ sym. is_empty sym.security_code) same ∙ named)
        (ap (λ sym. symbol_eq sym new) same ∙ other)

-- ===== src/Strategy/Confluence/Fills.antt =====
-- How fills that src/order/order_client.cpp reports reach the position that
-- src/strategy/confluence_strategy.hpp keeps.
use finam_tradebot.Prelude.{◌≡◌, true, none, arith}
use finam_tradebot.Prelude.Int.{pos, ◌+ℤ◌, ◌-ℤ◌}
use finam_tradebot.Prelude.Map.{eqb_ℤ_refl, eqb_ℤ_iff}
use finam_tradebot.Core.Types.{Timestamp, filled, partial_fill}
use finam_tradebot.Double.{Double, nought, decimal_lit}
use finam_tradebot.Order.OrderClient.{
  OrderClient, StreamOrder, on_stream_order, streamed, upsert, quantity_of, map_status,
}
use finam_tradebot.Order.OrderClient.Deltas.{delta_self, prev_filled-upsert}
use finam_tradebot.Strategy.Confluence.{Confluence, on_order_update, check_exit}
use finam_tradebot.Strategy.Confluence.Exit.{unpriced_exit}

module _ {W : Type 0} ⦃d : Double W⦄ where
  -- What the strategy knows after an order of the stream.
  abbrev pub after_stream :
      StreamOrder → Timestamp → OrderClient W × Confluence W → OrderClient W × Confluence W
  after_stream o now (c, s) = let (c', upd) = on_stream_order o now c in (c', on_order_update upd s)

  -- A flat strategy that the stream tells of a filled order holds a position that no price closes:
  -- the update carries the price 0. (0 < 1e-9.)
  pub stream_fill_unwatched :
      (o : StreamOrder) (now : Timestamp) (c : OrderClient W) (s : Confluence W) (price : W)
      → d.lt nought (decimal_lit 1 9) ≡ true
      → s.position ≡ pos 0
      → map_status o.status ≡ filled
      → check_exit price (after_stream o now (c, s)).1 ≡ none
  unfolding on_stream_order streamed upsert on_order_update
  stream_fill_unwatched o now c s price tiny flat done =
      unpriced_exit price _ (ground (arith, eqb_ℤ_iff s.position (pos 0)))

  delta-on_stream_order :
      (o₁ o₂ : StreamOrder) (t₁ t₂ : Timestamp) (c : OrderClient W)
      → o₂.client_order_id ≡ o₁.client_order_id
      → (on_stream_order o₂ t₂ (on_stream_order o₁ t₁ c).0).1.qty_filled
        ≡ quantity_of (d.stod o₂.executed_quantity) -ℤ quantity_of (d.stod o₁.executed_quantity)
  unfolding on_stream_order streamed
  delta-on_stream_order o₁ o₂ t₁ t₂ c same =
      let c₁ = (on_stream_order o₁ t₁ c).0 in
      rw (delta_self (streamed o₂ t₂ c₁) c₁, same, prev_filled-upsert, eqb_ℤ_refl)

  position-partial :
      (o : StreamOrder) (now : Timestamp) (c : OrderClient W) (s : Confluence W)
      → map_status o.status ≡ partial_fill
      → (after_stream o now (c, s)).1 ≡ s
  unfolding on_order_update on_stream_order streamed upsert
  position-partial o now c s part = rw part

  position-filled_buy :
      (o : StreamOrder) (now : Timestamp) (c : OrderClient W) (s : Confluence W)
      → map_status o.status ≡ filled
      → o.side_is_buy ≡ true
      → (after_stream o now (c, s)).1.position
        ≡ s.position +ℤ (on_stream_order o now c).1.qty_filled
  unfolding on_order_update on_stream_order streamed upsert
  position-filled_buy o now c s done buys = rw (done, buys)

  -- A buy that the stream reports first as partly filled and then as filled moves the position by
  -- what the second message adds alone: what the first one had executed never reaches the position.
  pub partial_fill_lost :
      (o₁ o₂ : StreamOrder) (t₁ t₂ : Timestamp) (c : OrderClient W) (s : Confluence W)
      → o₂.client_order_id ≡ o₁.client_order_id
      → map_status o₁.status ≡ partial_fill
      → map_status o₂.status ≡ filled
      → o₂.side_is_buy ≡ true
      → (after_stream o₂ t₂ (after_stream o₁ t₁ (c, s))).1.position
        ≡ s.position
          +ℤ (quantity_of (d.stod o₂.executed_quantity)
              -ℤ quantity_of (d.stod o₁.executed_quantity))
  partial_fill_lost o₁ o₂ t₁ t₂ c s same part done buys = rw (
    position-filled_buy o₂ t₂ (on_stream_order o₁ t₁ c).0 (after_stream o₁ t₁ (c, s)).1 done buys,
    delta-on_stream_order o₁ o₂ t₁ t₂ c same,
    position-partial o₁ t₁ c s part,
  )

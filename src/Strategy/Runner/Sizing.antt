-- ===== src/Strategy/Runner/Sizing.antt =====
-- The size and the price of an entry, from src/strategy/confluence_strategy.hpp through
-- src/strategy/strategy_runner.hpp to src/order/order_client.cpp.
use finam_tradebot.Prelude.{◌≡◌, refl, true, false, none, some, [], ◌∷◌, ◌++◌, ◌∙◌, arith}
use finam_tradebot.Prelude.Int.{ℤ, pos, ◌+ℤ◌}
use finam_tradebot.Prelude.Map.{eqb_ℤ_iff}
use finam_tradebot.Prelude.Text.{Text, text, is_empty}
use finam_tradebot.Core.Types.{Timestamp, Signal, OrderUpdate, invalid_quantity, filled, error}
use finam_tradebot.Double.{Double, ◌⊗◌, decimal_lit, nought}
use finam_tradebot.Risk.RiskManager.{Reply}
use finam_tradebot.Order.OrderClient.{
  OrderClient, PlaceRequest, PlaceReply, validate, submit, upsert, placed, print_ℤ, map_status,
}
use finam_tradebot.Order.OrderClient.Submit.{IsPlaced, submit-placed}
use finam_tradebot.Strategy.SessionContext.{size_multiplier}
use finam_tradebot.Strategy.Confluence.{
  Confluence, build_entry, try_enter, on_order_update, check_exit,
}
use finam_tradebot.Strategy.Confluence.Exit.{unpriced_exit}
use finam_tradebot.Strategy.Runner.{request_of}

module _ {W : Type 0} ⦃d : Double W⦄ where
  entry_quantity :
      (ts : Timestamp) (s : Confluence W) (sig : Signal W)
      → d.truncate (d.of_ℤ (pos 1) ⊗ decimal_lit 5 1) ≡ pos 0
      → s.cfg.base_qty ≡ pos 1
      → s.session_ctx.nr7_confirmed ≡ false
      → (try_enter ts s).1 ≡ some sig
      → sig.quantity ≡ pos 0
  unfolding try_enter build_entry size_multiplier
  entry_quantity ts s sig half one wide entered = ground arith

  -- Every entry of a strategy with a base quantity of one contract is refused by `validate` for its
  -- quantity, and is not sent, unless the last daily range was the narrowest: half a contract is
  -- truncated to none.
  pub half_contract_refused :
      (place : PlaceRequest → Reply PlaceReply) (now ts : Timestamp) (account : Text)
      (s : Confluence W) (sig : Signal W) (c : OrderClient W)
      → d.truncate (d.of_ℤ (pos 1) ⊗ decimal_lit 5 1) ≡ pos 0
      → is_empty account ≡ false
      → s.cfg.base_qty ≡ pos 1
      → s.session_ctx.nr7_confirmed ≡ false
      → (try_enter ts s).1 ≡ some sig
      → submit place now (request_of account sig) c
        ≡ (c, error invalid_quantity (text "quantity must be > 0, got " ++ print_ℤ (pos 0)), [])
  unfolding submit validate request_of
  half_contract_refused place now ts account s sig c half named one wide entered =
      let none_left = entry_quantity ts s sig half one wide entered in rw (named, none_left)

  entry_price :
      (ts : Timestamp) (s : Confluence W) (sig : Signal W)
      → (try_enter ts s).1 ≡ some sig
      → sig.price ≡ nought
  unfolding try_enter build_entry
  entry_price ts s sig entered = ground arith

  price-upsert :
      (now : Timestamp) (account : Text) (sig : Signal W) (c : OrderClient W) (resp : PlaceReply)
      (lid : ℤ)
      → let upd = (upsert (placed lid (request_of account sig) resp now) c).1 in
        (upd.price ≡ sig.price) × (upd.status ≡ map_status resp.status)
  unfolding upsert placed request_of
  price-upsert now account sig c resp lid = (refl, refl)

  fill_unwatched :
      (upd : OrderUpdate W) (t : Confluence W) (price : W)
      → d.lt nought (decimal_lit 1 9) ≡ true
      → upd.status ≡ filled
      → upd.price ≡ nought
      → t.position ≡ pos 0
      → check_exit price (on_order_update upd t) ≡ none
  unfolding on_order_update
  fill_unwatched upd t price tiny done free flat =
      unpriced_exit price (on_order_update upd t) (ground (arith, eqb_ℤ_iff t.position (pos 0)))

  -- If the exchange answers a market entry of a flat strategy as filled, the update carries the price
  -- 0 of the request, and no later price makes the strategy close the position. (0 < 1e-9.)
  pub entry_fill_unwatched :
      (place : PlaceRequest → Reply PlaceReply) (now ts : Timestamp) (account : Text)
      (s t : Confluence W) (sig : Signal W) (c : OrderClient W) (resp : PlaceReply) (price : W)
      → d.lt nought (decimal_lit 1 9) ≡ true
      → (try_enter ts s).1 ≡ some sig
      → IsPlaced place (request_of account sig) c resp
      → map_status resp.status ≡ filled
      → t.position ≡ pos 0
      → let updates = (submit place now (request_of account sig) c).2 in
        (upd : OrderUpdate W) × (updates ≡ upd ∷ [])
        × (check_exit price (on_order_update upd t) ≡ none)
  entry_fill_unwatched place now ts account s t sig c resp price tiny entered sent done flat =
      let c₁ = record c { id_counter = c.id_counter +ℤ pos 1 } in
      let upd = (upsert (placed c.id_counter (request_of account sig) resp now) c₁).1 in
      let (paid, status) = price-upsert now account sig c₁ resp c.id_counter in
      rw (submit-placed place now (request_of account sig) c resp sent) (
        upd,
        refl,
        fill_unwatched upd t price tiny (status ∙ done) (paid ∙ entry_price ts s sig entered) flat,
      )

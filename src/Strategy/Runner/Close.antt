-- ===== src/Strategy/Runner/Close.antt =====
-- What `handle_signal` of src/strategy/strategy_runner.hpp makes of the close signals of
-- src/strategy/confluence_strategy.hpp.
use finam_tradebot.Prelude.{◌≡◌, refl, [], ◌∷◌, arith, if◌then◌else◌}
use finam_tradebot.Prelude.Int.{pos, ◌+ℤ◌, ◌-ℤ◌, abs, ltb_ℤ}
use finam_tradebot.Prelude.Text.{Text}
use finam_tradebot.Core.Types.{OrderSide, OrderUpdate, OrderRequest, filled}
use finam_tradebot.Double.{Double}
use finam_tradebot.Strategy.Confluence.{Confluence, close_signal, on_order_update}
use finam_tradebot.Strategy.Runner.{Runner, Env, handle_signal, request_of, order_side}

module _ {W : Type 0} ⦃d : Double W⦄ where
  -- The request that a close signal of the runner's strategy becomes.
  abbrev pub close_request : Env W → Text → Confluence W → OrderRequest W
  close_request env reason s = request_of env.account_id (close_signal reason s)

  -- An update that fills the request at once.
  abbrev pub Fills : OrderRequest W → OrderUpdate W → Type 0
  Fills req upd = (upd.status ≡ filled) × (upd.side ≡ req.side) × (upd.qty_filled ≡ req.quantity)

  -- A close signal always sends one sell order, past the risk manager. Once that order is filled, a
  -- long position is closed, but a short position has doubled.
  pub close_fill :
      (env : Env W) (reason : Text) (r : Runner W) (upd : OrderUpdate W)
      → Fills (close_request env reason r.strategy) upd
      → (handle_signal env (close_signal reason r.strategy) r
          ≡ (r, close_request env reason r.strategy ∷ []))
        × ((close_request env reason r.strategy).side ≡ OrderSide.sell)
        × ((on_order_update upd r.strategy).position ≡ (
            if ltb_ℤ r.strategy.position (pos 0)
            then r.strategy.position +ℤ r.strategy.position
            else pos 0))
  unfolding handle_signal request_of order_side close_signal on_order_update abs ◌+ℤ◌ ◌-ℤ◌
  close_fill env reason r upd fill = (refl, refl, ground arith)

-- ===== src/Order/OrderStream.antt =====
-- `run_order_stream` of src/order/order_client.cpp: the loop that reads the stream of orders, opens it
-- again when it has ended, and stays away during the maintenance window.
pub mod Reconnect
use finam_tradebot.Prelude.{
  ℕ, Bool, true, false, Option, none, some, List, [], ◌∷◌, ◌++◌, if◌then◌else◌,
}
use finam_tradebot.Core.Types.{Timestamp, OrderUpdate}
use finam_tradebot.Core.Backoff
use finam_tradebot.Core.Backoff.{Backoff}
use finam_tradebot.Core.Maintenance
use finam_tradebot.Core.Maintenance.{Reading, wait_if_active, is_active}
use finam_tradebot.Double.{Double}
use finam_tradebot.MarketData.Streams.{Fed, feed}
use finam_tradebot.Order.OrderClient.{OrderClient, StreamOrder, on_stream_order}

-- A response: its orders, each with the clock when it is recorded.
abbrev pub Response : Type 0
Response = List (StreamOrder × Timestamp)

-- One round of the outer loop: what it reads before the stream is opened, what the stream delivers,
-- and what it reads afterwards: the flag, the clock, and the flag in each round of the wait.
pub record Round : Type 0 where
  pub entered : Timestamp
  pub readings : List Reading
  pub responses : List Response
  pub stopped : Bool
  pub ended : Timestamp
  pub stop_reads : ℕ → Bool

module _ {W : Type 0} ⦃d : Double W⦄ where
  -- The orders of a response, and the updates handed to the callback.
  unfoldable pub on_orders : Response → OrderClient W → OrderClient W × List (OrderUpdate W)
  on_orders [] c = (c, [])
  on_orders ((o, now) ∷ os) c =
      let (c₁, upd) = on_stream_order o now c in
      let (c₂, later) = on_orders os c₁ in (c₂, upd ∷ later)

  abbrev pub add_updates :
      List (OrderUpdate W)
      → Option (OrderClient W × List (OrderUpdate W))
      → Option (OrderClient W × List (OrderUpdate W))
  add_updates upds none = none
  add_updates upds (some (c, later)) = some (c, upds ++ later)

  -- What follows a stream: the end of the loop, or the rest of it, at once in the window and after a
  -- wait outside it. `none` is a wait out of fuel.
  unfoldable pub after_stream :
      (W → W → W)
      → Round
      → Fed W (OrderClient W) (OrderUpdate W)
      → (Backoff W → Option (OrderClient W × List (OrderUpdate W)))
      → Option (OrderClient W × List (OrderUpdate W))
  after_stream draw x f rest =
      if x.stopped
      then some (f.state, f.calls)
      else (if is_active Maintenance.default_config x.ended
          then add_updates f.calls (rest f.backoff)
          else elim (Backoff.wait draw x.stop_reads f.backoff) [
            | none ↦ none
            | some (bo, w) ↦
                if w.completed then add_updates f.calls (rest bo) else some (f.state, f.calls)
          ])

  -- The outer loop; `none` is also a wait for the end of the window that goes on.
  unfoldable pub run_rounds :
      (W → W → W)
      → List Round
      → Backoff W
      → OrderClient W
      → Option (OrderClient W × List (OrderUpdate W))
  run_rounds draw [] bo c = some (c, [])
  run_rounds draw (x ∷ xs) bo c =
      elim (wait_if_active Maintenance.default_config x.entered x.readings) [
        | none ↦ none
        | some false ↦ some (c, [])
        | some true ↦
            let f = feed (λ os c. some (on_orders os c)) x.responses bo c in
            after_stream draw x f (λ bo. run_rounds draw xs bo f.state)
      ]

  unfoldable pub run_order_stream :
      (W → W → W) → List Round → OrderClient W → Option (OrderClient W × List (OrderUpdate W))
  run_order_stream draw xs c = run_rounds draw xs (Backoff.make Backoff.default_config) c

-- ===== src/Main/Executor.antt =====
-- `executor` of src/main.cpp, a pointer to an IOrderExecutor (src/core/interfaces.hpp): the order
-- client, or the executor of dry runs.
use finam_tradebot.Prelude.{◌≡◌, refl, ◌⊎◌, inl, inr, Bool, true, false, List, []}
use finam_tradebot.Prelude.Int.{ℤ}
use finam_tradebot.Core.Types.{Result, Timestamp, OrderRequest, OrderUpdate}
use finam_tradebot.Double.{Double}
use finam_tradebot.Risk.RiskManager.{Reply}
use finam_tradebot.Order.OrderClient
use finam_tradebot.Order.OrderClient.{OrderClient, PlaceRequest, PlaceReply, CancelRequest}
use finam_tradebot.Main
use finam_tradebot.Main.{DryRunExecutor}

pub data Executor (W : Type 0) : Type 0 where
  live : OrderClient W → Executor W
  dry_run : DryRunExecutor → Executor W

abbrev pub is_live : {W : Type 0} → Executor W → Bool
is_live (live c) = true
is_live (dry_run x) = false

pub Executor-cases :
    {W : Type 0} (x : Executor W)
    → ((c : OrderClient W) × (x ≡ live c)) ⊎ ((y : DryRunExecutor) × (x ≡ dry_run y))
Executor-cases (live c) = inl (c, refl)
Executor-cases (dry_run y) = inr (y, refl)

module _ {W : Type 0} ⦃d : Double W⦄ where
  -- The executor, the answer, and the updates that are handed to the callback.
  unfoldable pub submit :
      (PlaceRequest → Reply PlaceReply)
      → Timestamp
      → OrderRequest W
      → Executor W
      → Executor W × Result ℤ × List (OrderUpdate W)
  submit place now req (live c) =
      let (c', result, upds) = OrderClient.submit place now req c in (live c', result, upds)
  submit place now req (dry_run x) =
      let (x', result) = Main.submit req x in (dry_run x', result, [])

  unfoldable pub cancel : (CancelRequest → Reply (Unit {0})) → ℤ → Executor W → Result (Unit {0})
  cancel cancel_order order_no (live c) = OrderClient.cancel cancel_order order_no c
  cancel cancel_order order_no (dry_run x) = Main.cancel order_no x

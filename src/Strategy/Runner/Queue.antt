-- ===== src/Strategy/Runner/Queue.antt =====
-- The queue of src/strategy/strategy_runner.hpp between its producers and the strategy thread: the
-- callbacks push, one call at a time, and each round of `drain_queue` pops one event and dispatches it.
pub mod Delivery
use finam_tradebot.Prelude.{none, some, List, [], ◌∷◌, ◌++◌}
use finam_tradebot.Core.SpscQueue
use finam_tradebot.Core.SpscQueue.{SpscQueue, push, pop}
use finam_tradebot.Core.Types.{OrderRequest}
use finam_tradebot.Double.{Double}
use finam_tradebot.Strategy.Runner.{Runner, MdEvent, Env, dispatch, queue_capacity}

-- What happens, in the order in which it takes effect: an event comes in, or the strategy thread goes
-- through its loop once.
pub data Action (W : Type 0) : Type 0 where
  incoming : MdEvent W → Action W
  drain_round : Env W → Action W

-- The queue and the runner, and the orders that are sent.
pub record System (W : Type 0) : Type 0 where
  pub queue : SpscQueue (MdEvent W)
  pub runner : Runner W
  pub sent : List (OrderRequest W)

module _ {W : Type 0} ⦃d : Double W⦄ where
  -- `default` is what `buffer_{}` holds.
  unfoldable pub make : MdEvent W → Runner W → System W
  make default r = record { queue = SpscQueue.make queue_capacity default; runner = r; sent = [] }

  -- An event that does not fit is dropped.
  unfoldable pub act : Action W → System W → System W
  act (incoming e) s = record s { queue = (push e s.queue).0 }
  act (drain_round env) s =
      let (queue, popped) = pop s.queue in
      elim popped [
        | none ↦ record s { queue = queue }
        | some e ↦
            let (runner, sent) = dispatch env e s.runner in
            record { queue = queue; runner = runner; sent = s.sent ++ sent }
      ]

  unfoldable pub act_all : List (Action W) → System W → System W
  act_all [] s = s
  act_all (a ∷ acts) s = act_all acts (act a s)

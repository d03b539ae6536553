-- ===== src/Core/EventBus/Fifo.antt =====
-- The ring of src/core/event_bus.hpp against that of src/core/spsc_queue.hpp, and against a queue.
use finam_tradebot.Prelude.{◌≡◌, refl, ◌∙◌, List, [], ◌∷◌, arith}
use finam_tradebot.Core.SpscQueue
use finam_tradebot.Core.SpscQueue.{SpscQueue, find_slot, publish}
use finam_tradebot.Core.SpscQueue.Fifo.{
  Call, push_call, pop_call, Answer, taken, popped, run_queue, run_fifo, run_queue_lem,
}
use finam_tradebot.Core.EventBus.{EventBus, MarketEvent, make, push, pop, capacity}

module _ {W : Type 0} where
  -- The bus as a ring of the other file.
  abbrev pub as_ring : EventBus W → SpscQueue (MarketEvent W)
  as_ring b = record {
    size = capacity;
    default = b.default;
    head = b.head;
    tail = b.tail;
    buffer = b.buffer;
  }

  abbrev pub run_bus : List (Call (MarketEvent W)) → EventBus W → List (Answer (MarketEvent W))
  run_bus [] b = []
  run_bus (push_call e ∷ cs) b = taken (push e b).1 ∷ run_bus cs (push e b).0
  run_bus (pop_call ∷ cs) b = popped (pop b).1 ∷ run_bus cs (pop b).0

  push-as_ring :
      (e : MarketEvent W) (b : EventBus W)
      → SpscQueue.push e (as_ring b) ≡ (as_ring (push e b).0, (push e b).1)
  unfolding SpscQueue.push find_slot publish push
  push-as_ring e b = ground arith

  pop-as_ring : (b : EventBus W) → SpscQueue.pop (as_ring b) ≡ (as_ring (pop b).0, (pop b).1)
  unfolding SpscQueue.pop pop
  pop-as_ring b = ground arith

  -- The bus answers every sequence of calls as the other ring does.
  run_bus-run_queue :
      (cs : List (Call (MarketEvent W))) (b : EventBus W) → run_bus cs b ≡ run_queue cs (as_ring b)
  run_bus-run_queue [] b = refl
  run_bus-run_queue (push_call e ∷ cs) b = rw (run_bus-run_queue cs (push e b).0, push-as_ring e b)
  run_bus-run_queue (pop_call ∷ cs) b = rw (run_bus-run_queue cs (pop b).0, pop-as_ring b)

  -- A new bus answers every sequence of pushes and pops as a first-in first-out queue with room for
  -- 1023 events does.
  run_bus_lem :
      (default : MarketEvent W) (cs : List (Call (MarketEvent W)))
      → run_bus cs (make default) ≡ run_fifo 1023 cs []
  unfolding make SpscQueue.make
  run_bus_lem default cs = run_bus-run_queue cs (make default) ∙ run_queue_lem 10 default cs

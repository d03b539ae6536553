-- ===== src/Tests/Queues.antt =====
-- Runs of the ring.
use finam_tradebot.Prelude.{ℕ, ◌-◌, ◌^◌, ◌≡◌, refl, true, false, none, some, List, [], ◌∷◌}
use finam_tradebot.Core.SpscQueue.{SpscQueue, make, push, pop, find_slot, publish}
use finam_tradebot.Core.SpscQueue.Fifo.{
  Call, push_call, pop_call, taken, popped, run_queue, run_fifo, run_queue_lem,
}

-- A ring of four slots takes three items.
abbrev calls : List (Call ℕ)
calls =
    push_call 1
    ∷ push_call 2
    ∷ push_call 3
    ∷ push_call 4
    ∷ pop_call
    ∷ push_call 5
    ∷ pop_call
    ∷ pop_call
    ∷ pop_call
    ∷ pop_call
    ∷ []

run_queue_lem_example : run_queue calls (make (2 ^ 2) 0) ≡ run_fifo (2 ^ 2 - 1) calls []
run_queue_lem_example = run_queue_lem 2 0 calls

answers :
    run_queue calls (make (2 ^ 2) 0)
    ≡ taken true
      ∷ taken true
      ∷ taken true
      ∷ taken false
      ∷ popped (some 1)
      ∷ taken true
      ∷ popped (some 2)
      ∷ popped (some 3)
      ∷ popped (some 5)
      ∷ popped none
      ∷ []
unfolding make push pop find_slot publish
answers = refl

abbrev ring : SpscQueue ℕ
ring = make (2 ^ 2) 0

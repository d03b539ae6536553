-- ===== src/Core/SpscQueue/Fifo.antt =====
-- The ring of src/core/spsc_queue.hpp is a queue with a bound, for one producer.

use finam_tradebot.Prelude.{ℕ, ◌-◌, ◌^◌, ◌≡◌, refl, sym, Bool, Option, some, List, [], ◌∷◌, ◌++◌}
use finam_tradebot.Core.SpscQueue.{SpscQueue, make, push, find_slot, publish, pop}
use finam_tradebot.Core.SpscQueue.Window.{contents}
use finam_tradebot.Core.SpscQueue.Ring.{
  IsRing, fifo_push, fifo_pop, push-IsRing, pop-IsRing, push_lem, pop_lem, make-IsRing, publish_lem,
  contents-push, publish-publish, slot_found,
}

-- What the producer and the consumer call, in the order in which the calls take effect.
pub data Call (T : Type 0) : Type 0 where
  push_call : T → Call T
  pop_call : Call T

pub data Answer (T : Type 0) : Type 0 where
  taken : Bool → Answer T
  popped : Option T → Answer T

module _ {T : Type 0} where
  -- Two producers that have found the same slot both report a success, and the first item is lost:
  -- after both have written, the second alone waits behind what was there.
  pub publish_twice :
      (k slot : ℕ) (x y : T) (q : SpscQueue T)
      → IsRing k q
      → find_slot q ≡ some slot
      → contents (publish y slot (publish x slot q)) ≡ contents q ++ (y ∷ [])
  publish_twice k slot x y q ring found =
      let (same, room) = slot_found k slot q ring found in
      rw (publish-publish slot x y q, same, publish_lem k y q ring, contents-push k y q ring room)

  abbrev pub run_queue : List (Call T) → SpscQueue T → List (Answer T)
  run_queue [] q = []
  run_queue (push_call x ∷ cs) q = taken (push x q).1 ∷ run_queue cs (push x q).0
  run_queue (pop_call ∷ cs) q = popped (pop q).1 ∷ run_queue cs (pop q).0

  abbrev pub run_fifo : ℕ → List (Call T) → List T → List (Answer T)
  run_fifo bound [] xs = []
  run_fifo bound (push_call x ∷ cs) xs =
      let (ys, ok) = fifo_push bound x xs in taken ok ∷ run_fifo bound cs ys
  run_fifo bound (pop_call ∷ cs) xs =
      let (ys, out) = fifo_pop xs in popped out ∷ run_fifo bound cs ys

  run_queue-IsRing :
      (k : ℕ) (cs : List (Call T)) (q : SpscQueue T)
      → IsRing k q
      → run_queue cs q ≡ run_fifo (2 ^ k - 1) cs (contents q)
  run_queue-IsRing k [] q ring = refl
  run_queue-IsRing k (push_call x ∷ cs) q ring =
      rw (run_queue-IsRing k cs (push x q).0 (push-IsRing k x q ring), sym (push_lem k x q ring))
  run_queue-IsRing k (pop_call ∷ cs) q ring =
      rw (run_queue-IsRing k cs (pop q).0 (pop-IsRing k q ring), sym (pop_lem k q ring))

  -- A new ring of 2^k slots answers every sequence of pushes and pops as a first-in first-out queue
  -- with room for 2^k - 1 items does.
  pub run_queue_lem :
      (k : ℕ) (d : T) (cs : List (Call T))
      → run_queue cs (make (2 ^ k) d) ≡ run_fifo (2 ^ k - 1) cs []
  unfolding make
  run_queue_lem k d cs = run_queue-IsRing k cs (make (2 ^ k) d) (make-IsRing k d)

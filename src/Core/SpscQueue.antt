-- ===== src/Core/SpscQueue.antt =====
-- src/core/spsc_queue.hpp: the ring between one producer and one consumer. With one producer
-- and one consumer a `push` and a `pop` are one step each, since each writes one index, at its end; the
-- two halves of a `push` stand alone for the case of two producers.
pub mod Window
pub mod Ring
pub mod Fifo
pub mod Held
use Prim.Native.Nat.{bit_and}
use finam_tradebot.Prelude.{
  ℕ, ◌+◌, ◌-◌, ◌^◌, ◌%◌, Bool, true, false, Option, none, some, List, ◌==◌, if◌then◌else◌, set,
  get_or, replicate,
}

-- `N` is `size`, and `default` the value that `buffer_{}` holds.
pub record SpscQueue (T : Type 0) : Type 0 where
  pub size : ℕ
  pub default : T
  pub head : ℕ
  pub tail : ℕ
  pub buffer : List T

module _ {T : Type 0} where
  unfoldable pub make : ℕ → T → SpscQueue T
  make size default = record {
    size = size;
    default = default;
    head = 0;
    tail = 0;
    buffer = replicate size default;
  }

  -- `kMask`.
  abbrev pub mask : SpscQueue T → ℕ
  mask q = q.size - 1

  -- What a push does before it writes: the slot, if there is room.
  unfoldable pub find_slot : SpscQueue T → Option ℕ
  find_slot q = if bit_and (q.head + 1) (mask q) == q.tail then none else some q.head

  -- What it does then: the item is written, and the slot handed over.
  unfoldable pub publish : T → ℕ → SpscQueue T → SpscQueue T
  publish item slot q = record q {
    buffer = set q.buffer slot item;
    head = bit_and (slot + 1) (mask q);
  }

  -- The new queue, and whether the item was taken.
  unfoldable pub push : T → SpscQueue T → SpscQueue T × Bool
  push item q = elim (find_slot q) [ none ↦ (q, false) | some slot ↦ (publish item slot q, true) ]

  unfoldable pub pop : SpscQueue T → SpscQueue T × Option T
  pop q = if q.tail == q.head then (q, none) else (
    record q { tail = bit_and (q.tail + 1) (mask q) },
    some (get_or q.buffer q.tail q.default),
  )

  unfoldable pub empty : SpscQueue T → Bool
  empty q = q.head == q.tail

  -- `(h - t) & kMask` in 64-bit numbers.
  unfoldable pub count : SpscQueue T → ℕ
  count q = bit_and ((q.head + 2 ^ 64 - q.tail) % 2 ^ 64) (mask q)

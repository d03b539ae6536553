-- ===== src/Core/EventBus.antt =====
-- src/core/event_bus.hpp: the ring of 1024 market events.
pub mod Fifo
use Prim.Native.Nat.{bit_and}
use finam_tradebot.Prelude.{
  ℕ, ◌+◌, ◌-◌, Bool, true, false, Option, none, some, List, ◌==◌, if◌then◌else◌, set, get_or,
  replicate,
}
use finam_tradebot.Core.Types.{Quote, Bar, OrderBook, OrderUpdate}

pub data MarketEvent (W : Type 0) : Type 0 where
  quote : Quote W → MarketEvent W
  bar : Bar W → MarketEvent W
  order_book : OrderBook W → MarketEvent W
  order_update : OrderUpdate W → MarketEvent W

-- `default` is what `buffer_{}` holds.
pub record EventBus (W : Type 0) : Type 0 where
  pub default : MarketEvent W
  pub head : ℕ
  pub tail : ℕ
  pub buffer : List (MarketEvent W)

abbrev pub capacity : ℕ
capacity = 1024

-- `kMask`.
abbrev pub mask : ℕ
mask = capacity - 1

module _ {W : Type 0} where
  unfoldable pub make : MarketEvent W → EventBus W
  make default = record {
    default = default;
    head = 0;
    tail = 0;
    buffer = replicate capacity default;
  }

  unfoldable pub push : MarketEvent W → EventBus W → EventBus W × Bool
  push event b =
      let next = bit_and (b.head + 1) mask in
      if next == b.tail
      then (b, false)
      else (record b { buffer = set b.buffer b.head event; head = next }, true)

  unfoldable pub pop : EventBus W → EventBus W × Option (MarketEvent W)
  pop b =
      if b.tail == b.head
      then (b, none)
      else (record b { tail = bit_and (b.tail + 1) mask }, some (get_or b.buffer b.tail b.default))

  unfoldable pub empty : EventBus W → Bool
  empty b = b.tail == b.head

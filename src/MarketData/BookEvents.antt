-- ===== src/MarketData/BookEvents.antt =====
-- `subscribe_book_events` of src/market_data/market_data_client.cpp: the changes of the first levels
-- from one book to the next.
pub mod Replay
use finam_tradebot.Prelude.{
  ℕ, suc, zero, ◌+◌, Bool, ◌&&◌, Option, none, some, List, [], ◌∷◌, ◌++◌, if◌then◌else◌, get_elem?,
}
use finam_tradebot.Prelude.Int.{pos}
use finam_tradebot.Core.Types.{Symbol, OrderBook, OrderBookRow}
use finam_tradebot.Double.{Double, nought}
use finam_tradebot.Strategy.OfiTypes.{BookLevelEvent, book_levels}
use finam_tradebot.MarketData.Streams.{Session}
use finam_tradebot.MarketData.OrderBook.{Message, subscribe_order_book}

pub record PrevBook (W : Type 0) : Type 0 where
  pub bids : List (OrderBookRow W)
  pub asks : List (OrderBookRow W)

module _ {W : Type 0} ⦃d : Double W⦄ where
  -- `k < rows.size() ? static_cast<double>(rows[k].quantity) : 0.0`.
  unfoldable pub size_at : ℕ → List (OrderBookRow W) → W
  size_at k rows = elim (get_elem? rows k) [ none ↦ nought | some r ↦ d.of_ℤ r.quantity ]

  -- `k < rows.size() ? rows[k].price : other`.
  unfoldable pub price_or : ℕ → List (OrderBookRow W) → W → W
  price_or k rows other = elim (get_elem? rows k) [ none ↦ other | some r ↦ r.price ]

  unfoldable pub is_unchanged : ℕ → OrderBook W → PrevBook W → Bool
  is_unchanged k book prev =
      d.eq (size_at k prev.bids) (size_at k book.bids)
      && d.eq (size_at k prev.asks) (size_at k book.asks)

  unfoldable pub level_event : ℕ → OrderBook W → PrevBook W → BookLevelEvent W
  level_event k book prev = record {
    level = pos k;
    price =
        price_or k book.bids
          (price_or k book.asks (price_or k prev.bids (price_or k prev.asks nought)));
    old_bid_size = size_at k prev.bids;
    new_bid_size = size_at k book.bids;
    old_ask_size = size_at k prev.asks;
    new_ask_size = size_at k book.asks;
    ts = book.ts;
  }

  -- The rounds of the loop from the level `k` on, of which `left` remain.
  unfoldable pub level_events : (left k : ℕ) → OrderBook W → PrevBook W → List (BookLevelEvent W)
  level_events zero k book prev = []
  level_events (suc left) k book prev =
      let rest = level_events left (k + 1) book prev in
      if is_unchanged k book prev then rest else level_event k book prev ∷ rest

  -- The callback of the order book: the new `prev`, and the calls.
  unfoldable pub on_book : OrderBook W → PrevBook W → PrevBook W × List (BookLevelEvent W)
  on_book book prev =
      (record { bids = book.bids; asks = book.asks }, level_events book_levels 0 book prev)

  -- One book after the other, also over the end of a stream.
  unfoldable pub on_books : List (OrderBook W) → PrevBook W → PrevBook W × List (BookLevelEvent W)
  on_books [] prev = (prev, [])
  on_books (book ∷ books) prev =
      let (prev', now) = on_book book prev in
      let (last, later) = on_books books prev' in (last, now ++ later)

  abbrev pub no_book : PrevBook W
  no_book = record { bids = []; asks = [] }

  all_calls : List (List (OrderBook W)) → List (OrderBook W)
  all_calls [] = []
  all_calls (out ∷ outs) = out ++ all_calls outs

  unfoldable pub subscribe_book_events :
      Symbol → (W → W → W) → List (Session Message) → Option (List (BookLevelEvent W))
  unfolding all_calls
  subscribe_book_events symbol draw sessions = elim (subscribe_order_book symbol draw sessions) [
    | none ↦ none
    | some outs ↦ some (on_books (all_calls outs) no_book).1
  ]

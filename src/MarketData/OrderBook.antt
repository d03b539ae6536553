-- ===== src/MarketData/OrderBook.antt =====
-- `subscribe_order_book` of src/market_data/market_data_client.cpp: the rows of each message change two
-- maps, and the callback gets the whole book once for each message.
pub mod Sessions
pub mod Levels
use finam_tradebot.Prelude.{Bool, ◌||◌, Option, none, some, List, [], ◌∷◌, if◌then◌else◌}
use finam_tradebot.Prelude.Text.{Text}
use finam_tradebot.Core.Types.{Symbol, Timestamp, OrderBook, OrderBookRow, to_string}
use finam_tradebot.Double.{Double, ◌≺◌, decimal_lit}
use finam_tradebot.MarketData.PriceMap.{PriceMap, assign, erase}
use finam_tradebot.Core.Backoff
use finam_tradebot.MarketData.Streams.{Session, run}
use finam_tradebot.MarketData.Convert.{decimal_to_double, symbol_from_string}

-- `StreamOrderBook::Row`; `none` is a field that is not set.
pub record Row : Type 0 where
  pub price : Text
  pub buy_size : Option Text
  pub sell_size : Option Text
  pub is_remove : Bool

-- A response: the rows of each of its `StreamOrderBook`s, and the clock when it has been read.
pub record Message : Type 0 where
  pub order_book : List (List Row)
  pub now : Timestamp

-- `bids_map` and `asks_map`.
pub record Books (W : Type 0) : Type 0 where
  pub bids : PriceMap W (OrderBookRow W)
  pub asks : PriceMap W (OrderBookRow W)

module _ {W : Type 0} ⦃d : Double W⦄ where
  -- `std::greater<double>`, the order of the bids, and the default order of the asks.
  abbrev pub greater : W → W → Bool
  greater a b = b ≺ a

  abbrev pub less : W → W → Bool
  less a b = a ≺ b

  -- A row removes its level.
  unfoldable pub removes : Bool → W → Bool
  removes is_remove qty = is_remove || qty ≺ decimal_lit 1 9

  -- One side of the book at a row with a size for it.
  unfoldable pub apply_side :
      (W → W → Bool) → Bool → W → W → PriceMap W (OrderBookRow W) → PriceMap W (OrderBookRow W)
  apply_side before is_remove price qty m =
      if removes is_remove qty
      then erase before price m
      else assign before price (record { price = price; quantity = d.truncate qty }) m

  unfoldable pub apply_row : Row → Books W → Books W
  apply_row row b =
      let price = decimal_to_double row.price in
      elim row.buy_size [
        | some size ↦ record b {
          bids = apply_side greater row.is_remove price (decimal_to_double size) b.bids;
        }
        | none ↦ elim row.sell_size [
          | some size ↦ record b {
            asks = apply_side less row.is_remove price (decimal_to_double size) b.asks;
          }
          | none ↦ b
        ]
      ]

  unfoldable pub apply_rows : List Row → Books W → Books W
  apply_rows [] b = b
  apply_rows (row ∷ rows) b = apply_rows rows (apply_row row b)

  -- The two nested loops.
  unfoldable pub apply_books : List (List Row) → Books W → Books W
  apply_books [] b = b
  apply_books (rows ∷ books) b = apply_books books (apply_rows rows b)

  unfoldable pub rows_of : PriceMap W (OrderBookRow W) → List (OrderBookRow W)
  rows_of [] = []
  rows_of ((p, r) ∷ m) = r ∷ rows_of m

  unfoldable pub snapshot : Text → Timestamp → Books W → OrderBook W
  snapshot sym_str now b = record {
    symbol = symbol_from_string sym_str;
    asks = rows_of b.asks;
    bids = rows_of b.bids;
    ts = now;
  }

  -- The two maps at the start, and after `clear()`.
  abbrev pub no_books : Books W
  no_books = record { bids = []; asks = [] }

  -- One round of the inner loop: the new maps, and the book that the callback gets.
  unfoldable pub on_message : Text → Message → Books W → Books W × OrderBook W
  on_message sym_str m b =
      let changed = apply_books m.order_book b in (changed, snapshot sym_str m.now changed)

  -- A round of the inner loop, with the call of the callback.
  unfoldable pub step : Symbol → Message → Books W → Option (Books W × List (OrderBook W))
  step symbol m b = let (b', book) = on_message (to_string symbol) m b in some (b', book ∷ [])

  -- The subscription: the books that the callback gets in each stream. A new stream starts with
  -- empty maps.
  unfoldable pub subscribe_order_book :
      Symbol → (W → W → W) → List (Session Message) → Option (List (List (OrderBook W)))
  subscribe_order_book symbol draw sessions =
      run (step symbol) (λ b. no_books) draw sessions (Backoff.make Backoff.default_config) no_books

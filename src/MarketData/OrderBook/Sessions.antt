-- ===== src/MarketData/OrderBook/Sessions.antt =====
-- The books that a subscription hands to its callback, over all its streams.
use finam_tradebot.Prelude.{◌≡◌, refl, sym, arith, ◌∙◌, ap, List, [], ◌∷◌, ◌++◌, some}
use finam_tradebot.Prelude.Text.{Text}
use finam_tradebot.Core.Types.{Symbol, OrderBook, to_string}
use finam_tradebot.Core.Backoff.{Backoff, reset, make, default_config}
use finam_tradebot.Double.{Double}
use finam_tradebot.MarketData.PriceMap.Laws.{IsStrictWeak}
use finam_tradebot.MarketData.Streams.{Session, feed}
use finam_tradebot.MarketData.Streams.Sessions.{AllSessions, run-AllSessions}
use finam_tradebot.MarketData.Convert.{symbol_from_string}
use finam_tradebot.MarketData.OrderBook.{
  Row, Message, Books, greater, less, on_message, apply_rows, no_books, rows_of, snapshot, step,
  subscribe_order_book,
}
use finam_tradebot.MarketData.OrderBook.Levels.{
  IsExact, all_rows, apply_rows-IsExact, apply_rows-append, apply_books-apply_rows,
}

module _ {W : Type 0} ⦃d : Double W⦄ where
  -- A book is the picture of two maps that hold what the rows say.
  pub record IsBookOf (sym_str : Text) (rows : List Row) (m : Message) (book : OrderBook W)
      : Type 0 where
    pub maps : Books W
    pub exact : IsExact rows maps
    pub bids_shown : book.bids ≡ rows_of maps.bids
    pub asks_shown : book.asks ≡ rows_of maps.asks
    pub named : book.symbol ≡ symbol_from_string sym_str
    pub timed : book.ts ≡ m.now

  -- The callback gets one book for each message, made of the rows of the stream so far.
  abbrev pub AllBooks : Text → List Row → List Message → List (OrderBook W) → Type 0
  AllBooks sym_str rows [] [] = Unit
  AllBooks sym_str rows [] (book ∷ books) = ⊥
  AllBooks sym_str rows (m ∷ ms) [] = ⊥
  AllBooks sym_str rows (m ∷ ms) (book ∷ books) =
      IsBookOf sym_str (rows ++ all_rows m.order_book) m book
      × AllBooks sym_str (rows ++ all_rows m.order_book) ms books

  module _ (up : IsStrictWeak (less {W = W})) (down : IsStrictWeak (greater {W = W})) where
    on_message-apply_rows :
        (sym_str : Text) (rows : List Row) (m : Message)
        → (on_message sym_str m (apply_rows rows (no_books {W = W}))).0
          ≡ apply_rows (rows ++ all_rows m.order_book) no_books
    unfolding on_message
    on_message-apply_rows sym_str rows m =
        apply_books-apply_rows m.order_book (apply_rows rows no_books)
        ∙ sym (apply_rows-append rows (all_rows m.order_book) no_books)

    on_message-IsBookOf :
        (sym_str : Text) (rows : List Row) (m : Message)
        → IsBookOf sym_str
            (rows ++ all_rows m.order_book)
            m
            (on_message sym_str m (apply_rows rows no_books)).1
    unfolding on_message snapshot
    on_message-IsBookOf sym_str rows m = record {
      maps = apply_rows (rows ++ all_rows m.order_book) no_books;
      exact = apply_rows-IsExact up down (rows ++ all_rows m.order_book);
      bids_shown = ap (λ b. rows_of b.bids) (on_message-apply_rows sym_str rows m);
      asks_shown = ap (λ b. rows_of b.asks) (on_message-apply_rows sym_str rows m);
      named = refl;
      timed = refl;
    }

    feed-AllBooks :
        (symbol : Symbol) (rows : List Row) (ms : List Message) (bo : Backoff W)
        → AllBooks
            (to_string symbol)
            rows
            ms
            (feed (step symbol) ms bo (apply_rows rows no_books)).calls
    unfolding feed step
    feed-AllBooks symbol rows [] bo = tt
    feed-AllBooks symbol rows (m ∷ ms) bo = (
      on_message-IsBookOf (to_string symbol) rows m,
      rw (on_message-apply_rows (to_string symbol) rows m)
          (feed-AllBooks symbol (rows ++ all_rows m.order_book) ms (reset bo)),
    )

    -- Whatever the streams deliver, and whenever they end, the subscription runs to its end. In each
    -- stream the callback gets one book for each message. The book shows both sides in the order of
    -- their prices, and at each price what the rows say that this stream has delivered so far, and
    -- nothing of the streams before. The comparison of prices is a strict weak ordering, on both
    -- sides.
    pub subscribe-AllBooks :
        (symbol : Symbol) (draw : W → W → W) (sessions : List (Session Message))
        → (outs : List (List (OrderBook W))) × (subscribe_order_book symbol draw sessions
            ≡ some outs)
          × AllSessions (λ x. AllBooks (to_string symbol) [] x.messages) sessions outs
    unfolding subscribe_order_book apply_rows make default_config
    subscribe-AllBooks symbol draw sessions =
        run-AllSessions (step symbol) (λ b. no_books) draw
          (λ x. AllBooks (to_string symbol) [] x.messages) (λ b. b ≡ no_books) (λ b. refl)
          (λ x bo b start. rw start (feed-AllBooks symbol [] x.messages bo)) sessions
          (make default_config) no_books (omega arith) refl

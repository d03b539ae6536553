-- ===== src/Tests/Markets.antt =====
-- Runs of the market data client.
use finam_tradebot.Prelude.{
  ◌+◌, ◌≤◌, ◌≡◌, refl, true, false, none, some, List, [], ◌∷◌, length, arith,
}
use finam_tradebot.Prelude.Int.{pos}
use finam_tradebot.Prelude.Text.{Text, text, stoi}
use finam_tradebot.Core.Types.{OrderBook, OrderBookRow, to_string}
use finam_tradebot.Double.Fixed.{Fixed, fixed_double}
use finam_tradebot.MarketData.Convert.{decimal_to_double}
use finam_tradebot.MarketData.PriceMap.{assign}
use finam_tradebot.MarketData.PriceMap.Laws.{IsStrictWeak}
use finam_tradebot.MarketData.Streams.{Session}
use finam_tradebot.MarketData.Streams.Sessions.{AllSessions}
use finam_tradebot.MarketData.Subscription.{
  Subscription, reading, over, message, look, finish, open_stream, none_yet, one_more,
}
use finam_tradebot.MarketData.Subscription.Cancelled.{rank, due, Turns-cancel}
use finam_tradebot.MarketData.OrderBook.{
  Row, Message, greater, less, subscribe_order_book, apply_row, apply_rows, apply_side, removes,
  no_books,
}
use finam_tradebot.MarketData.OrderBook.Sessions.{AllBooks, subscribe-AllBooks}
use finam_tradebot.MarketData.BookEvents.{size_at, on_books, no_book}
use finam_tradebot.MarketData.BookEvents.Replay.{TellsSizes, replay, replay-on_books}
use finam_tradebot.Tests.Fixtures.{si_june, num}

abbrev bid_row : Text → Text → Row
bid_row price size = record {
  price = price;
  buy_size = some size;
  sell_size = none;
  is_remove = false;
}

abbrev ask_row : Text → Text → Row
ask_row price size = record {
  price = price;
  buy_size = none;
  sell_size = some size;
  is_remove = false;
}

abbrev first : Message
first = record {
  order_book = (bid_row (text "99") (text "4") ∷ ask_row (text "101") (text "2") ∷ []) ∷ [];
  now = 1;
}

-- A better bid, and the end of the first one.
abbrev second_message : Message
second_message = record {
  order_book = (bid_row (text "100") (text "7") ∷ []) ∷ (bid_row (text "99") (text "0") ∷ []) ∷ [];
  now = 2;
}

-- A stream that is lost, and one in which the flag is set.
abbrev streams : List (Session Message)
streams =
    record { messages = first ∷ second_message ∷ []; stopped = false; stop_reads = λ i. false }
    ∷ record { messages = first ∷ []; stopped = true; stop_reads = λ i. false }
    ∷ []

abbrev mean_draw : Fixed → Fixed → Fixed
mean_draw a b = a

up : IsStrictWeak (less {W = Fixed})
up = record {
  irrefl = λ x. ground arith;
  trans = λ x y z h k. ground arith;
  cotrans = λ x y z h. ground arith;
}

down : IsStrictWeak (greater {W = Fixed})
down = record {
  irrefl = λ x. ground arith;
  trans = λ x y z h k. ground arith;
  cotrans = λ x y z h. ground arith;
}

subscribe-AllBooks_example :
    (outs : List (List (OrderBook Fixed))) × (subscribe_order_book si_june mean_draw streams
      ≡ some outs)
    × AllSessions (λ x. AllBooks (to_string si_june) [] x.messages) streams outs
subscribe-AllBooks_example = subscribe-AllBooks up down si_june mean_draw streams

-- The bid at 100 stands before the one at 99, which the second message has removed.
two_bids :
    (apply_rows
      (bid_row (text "99") (text "4") ∷ bid_row (text "100") (text "7") ∷ [])
      (no_books {W = Fixed})).bids
    ≡ (num 100, record { price = num 100; quantity = pos 7 })
      ∷ (num 99, record { price = num 99; quantity = pos 4 })
      ∷ []
unfolding apply_rows apply_row apply_side removes assign decimal_to_double text stoi
two_bids = refl

tells : TellsSizes Fixed
tells = record { sizes = λ m n h. ground arith; zero_size = refl }

abbrev book_of : List (OrderBookRow Fixed) → OrderBook Fixed
book_of bids = record { symbol = si_june; asks = []; bids = bids; ts = 1 }

abbrev books : List (OrderBook Fixed)
books =
    book_of (record { price = num 99; quantity = pos 4 } ∷ [])
    ∷ book_of (
        record { price = num 100; quantity = pos 7 }
        ∷ record { price = num 99; quantity = pos 4 }
        ∷ [])
    ∷ []

replay-on_books_example :
    (let (last, events) = on_books books no_book in
      (replay (λ e. e.new_bid_size) events 1 (size_at 1 (no_book {W = Fixed}).bids)
        ≡ size_at 1 last.bids)
      × (replay (λ e. e.new_ask_size) events 1 (size_at 1 (no_book {W = Fixed}).asks)
          ≡ size_at 1 last.asks))
replay-on_books_example = replay-on_books tells books no_book 1 (omega arith)

-- A thread that reads when its subscription is cancelled.
abbrev reading_now : Subscription Text
reading_now = record { phase = reading; stop = false; calls = [] }

abbrev returned : Subscription Text
returned = record { phase = over; stop = true; calls = text "tick" ∷ [] }

Turns-cancel_example :
    (4 + rank returned.phase ≤ rank reading_now.phase)
    × (length returned.calls + due returned.phase
        ≤ length reading_now.calls + due reading_now.phase)
Turns-cancel_example = Turns-cancel reading_now (
    one_more
      (one_more (one_more (one_more none_yet (message (text "tick") refl)) (look refl))
        (finish refl))
      (open_stream refl))

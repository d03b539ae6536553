-- ===== src/MarketData/OrderBook/Levels.antt =====
-- The maps of `subscribe_order_book` are the levels that the rows describe.
use finam_tradebot.Prelude.{
  ◌||◌, ◌≡◌, refl, ap, ◌∙◌, Bool, Option-cases, Option, none, some, List, [], ◌∷◌, ◌++◌,
  if◌then◌else◌, arith, inl, inr,
}
use finam_tradebot.Core.Types.{OrderBookRow}
use finam_tradebot.Double.{Double, ◌≺◌, decimal_lit}
use finam_tradebot.MarketData.PriceMap.{PriceMap, find_price}
use finam_tradebot.MarketData.PriceMap.Laws.{
  IsStrictWeak, same, InOrder, InOrder-assign, InOrder-erase, find_price-assign, find_price-erase,
}
use finam_tradebot.MarketData.Convert.{decimal_to_double}
use finam_tradebot.MarketData.OrderBook.{
  Row, Books, greater, less, removes, apply_side, apply_row, apply_rows, apply_books, no_books,
}

-- The rows of a message, one after the other.
abbrev pub all_rows : List (List Row) → List Row
all_rows [] = []
all_rows (rows ∷ books) = rows ++ all_rows books

module _ {W : Type 0} ⦃d : Double W⦄ where
  -- What a row with a size says of the level at the price `q`, which was `old`.
  abbrev pub level_after :
      (W → W → Bool) → W → Row → W → Option (OrderBookRow W) → Option (OrderBookRow W)
  level_after before size row q old =
      let price = decimal_to_double row.price in
      if same before price q
      then (if row.is_remove || size ≺ decimal_lit 1 9
          then none
          else some (record { price = price; quantity = d.truncate size }))
      else old

  -- A row is about the bids if it has a buy size, and about the asks if it has a sell size alone.
  abbrev pub bid_after : Row → W → Option (OrderBookRow W) → Option (OrderBookRow W)
  bid_after row q old = elim row.buy_size [
    | none ↦ old
    | some size ↦ level_after greater (decimal_to_double size) row q old
  ]

  abbrev pub ask_after : Row → W → Option (OrderBookRow W) → Option (OrderBookRow W)
  ask_after row q old = elim row.buy_size [
    | some size ↦ old
    | none ↦ elim row.sell_size [
      | none ↦ old
      | some size ↦ level_after less (decimal_to_double size) row q old
    ]
  ]

  -- The level after all rows, one after the other.
  abbrev pub level_rows :
      (Row → W → Option (OrderBookRow W) → Option (OrderBookRow W))
      → List Row
      → W
      → Option (OrderBookRow W)
      → Option (OrderBookRow W)
  level_rows after [] q old = old
  level_rows after (row ∷ rows) q old = level_rows after rows q (after row q old)

  -- Both maps are in order.
  abbrev pub BothInOrder : Books W → Type 0
  BothInOrder b = InOrder greater b.bids × InOrder less b.asks

  -- Both maps are in order and hold, at each price, what the rows say of it, from no level on.
  pub record IsExact (rows : List Row) (b : Books W) : Type 0 where
    pub ordered : BothInOrder b
    pub bid : (q : W) → find_price greater q b.bids ≡ level_rows bid_after rows q none
    pub ask : (q : W) → find_price less q b.asks ≡ level_rows ask_after rows q none

  apply_side-InOrder :
      (before : W → W → Bool) (weak : IsStrictWeak before) (gone : Bool) (price size : W)
      → (m : PriceMap W (OrderBookRow W)) → InOrder before m
      → InOrder before (apply_side before gone price size m)
  unfolding apply_side
  apply_side-InOrder before weak gone price size m ordered = ground (
    arith,
    InOrder-assign before weak price (record { price = price; quantity = d.truncate size }) m
        ordered,
    InOrder-erase before weak price m ordered,
  )

  find_price-apply_side :
      (before : W → W → Bool) (weak : IsStrictWeak before) (row : Row) (size q : W)
      → (m : PriceMap W (OrderBookRow W)) → InOrder before m
      → find_price before q (apply_side before row.is_remove (decimal_to_double row.price) size m)
        ≡ level_after before size row q (find_price before q m)
  unfolding apply_side removes
  find_price-apply_side before weak row size q m ordered =
      let price : W = decimal_to_double row.price in
      ground (
        arith,
        find_price-assign before weak price q (record { price = price; quantity = d.truncate size })
            m,
        find_price-erase before weak price q m ordered,
      )

  pub apply_rows-append :
      (rows more : List Row) (b : Books W)
      → apply_rows (rows ++ more) b ≡ apply_rows more (apply_rows rows b)
  unfolding apply_rows
  apply_rows-append [] more b = refl
  apply_rows-append (row ∷ rows) more b = apply_rows-append rows more (apply_row row b)

  -- The two nested loops are one loop over all rows.
  pub apply_books-apply_rows :
      (books : List (List Row)) (b : Books W) → apply_books books b ≡ apply_rows (all_rows books) b
  unfolding apply_books apply_rows
  apply_books-apply_rows [] b = refl
  apply_books-apply_rows (rows ∷ books) b =
      rw (apply_rows-append rows (all_rows books))
        (apply_books-apply_rows books (apply_rows rows b))

  module _ (up : IsStrictWeak (less {W = W})) (down : IsStrictWeak (greater {W = W})) where
    apply_row-InOrder : (row : Row) (b : Books W) → BothInOrder b → BothInOrder (apply_row row b)
    unfolding apply_row
    apply_row-InOrder row b ordered =
        let price : W = decimal_to_double row.price in
        elim (Option-cases row.buy_size) [
          | inr (size, e) ↦
              let bids =
                apply_side-InOrder greater down row.is_remove price (decimal_to_double size) b.bids
                  ordered.0 in
              ground (arith, e, ordered, bids)
          | inl none_bought ↦ elim (Option-cases row.sell_size) [
            | inr (size, e) ↦
                let asks =
                  apply_side-InOrder less up row.is_remove price (decimal_to_double size) b.asks
                    ordered.1 in
                ground (arith, none_bought, e, ordered, asks)
            | inl none_sold ↦ ground (arith, none_bought, none_sold, ordered)
          ]
        ]

    apply_row-levels :
        (row : Row) (b : Books W) (q : W)
        → BothInOrder b
        → (find_price greater q (apply_row row b).bids
            ≡ bid_after row q (find_price greater q b.bids))
          × (find_price less q (apply_row row b).asks ≡ ask_after row q (find_price less q b.asks))
    unfolding apply_row
    apply_row-levels row b q ordered = elim (Option-cases row.buy_size) [
      | inr (size, e) ↦
          let bid =
            find_price-apply_side greater down row (decimal_to_double size) q b.bids ordered.0 in
          rw (e, apply_row) (bid, refl)
      | inl none_bought ↦ elim (Option-cases row.sell_size) [
        | inr (size, e) ↦
            let ask =
              find_price-apply_side less up row (decimal_to_double size) q b.asks ordered.1 in
            rw (none_bought, e, apply_row) (refl, ask)
        | inl none_sold ↦ rw (none_bought, none_sold, apply_row) (refl, refl)
      ]
    ]

    apply_rows-InOrder :
        (rows : List Row) (b : Books W) → BothInOrder b → BothInOrder (apply_rows rows b)
    unfolding apply_rows
    apply_rows-InOrder [] b ordered = ordered
    apply_rows-InOrder (row ∷ rows) b ordered =
        apply_rows-InOrder rows (apply_row row b) (apply_row-InOrder row b ordered)

    apply_rows-levels :
        (rows : List Row) (b : Books W) (q : W)
        → BothInOrder b
        → (find_price greater q (apply_rows rows b).bids
            ≡ level_rows bid_after rows q (find_price greater q b.bids))
          × (find_price less q (apply_rows rows b).asks
              ≡ level_rows ask_after rows q (find_price less q b.asks))
    unfolding apply_rows
    apply_rows-levels [] b q ordered = (refl, refl)
    apply_rows-levels (row ∷ rows) b q ordered =
        let (bid, ask) = apply_row-levels row b q ordered in
        let (bids, asks) =
          apply_rows-levels rows (apply_row row b) q (apply_row-InOrder row b ordered) in
        (bids ∙ ap (level_rows bid_after rows q) bid, asks ∙ ap (level_rows ask_after rows q) ask)

    pub apply_rows-IsExact : (rows : List Row) → IsExact rows (apply_rows rows no_books)
    unfolding find_price
    apply_rows-IsExact rows = record {
      ordered = apply_rows-InOrder rows no_books (tt, tt);
      bid = λ q. (apply_rows-levels rows no_books q (tt, tt)).0;
      ask = λ q. (apply_rows-levels rows no_books q (tt, tt)).1;
    }

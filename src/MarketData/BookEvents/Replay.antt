-- ===== src/MarketData/BookEvents/Replay.antt =====
-- The events of the book levels carry the sizes of the first levels over to whoever replays them.
use finam_tradebot.Prelude.{
  ℕ, suc, zero, ◌+◌, ◌≤◌, ◌<◌, ◌≡◌, refl, sym, ap, ◌∙◌, inl, inr, true, Bool-cases, Option-cases,
  get_elem?, List, [], ◌∷◌, ◌++◌, if◌then◌else◌, arith, ◌==◌, ==_iff,
}
use finam_tradebot.Prelude.Int.{ℤ, pos}
use finam_tradebot.Prelude.Map.{eqb_ℤ}
use finam_tradebot.Core.Types.{OrderBook, OrderBookRow}
use finam_tradebot.Double.{Double, nought}
use finam_tradebot.Strategy.OfiTypes.{BookLevelEvent, book_levels}
use finam_tradebot.MarketData.BookEvents.{
  PrevBook, size_at, is_unchanged, level_event, level_events, on_book, on_books,
}

-- `==` tells sizes apart: they are integers, without NaN and without a negative zero.
pub record TellsSizes (W : Type 0) ⦃d : Double W⦄ : Type 0 where
  pub sizes : (m n : ℤ) → d.eq (d.of_ℤ m) (d.of_ℤ n) ≡ true → d.of_ℤ m ≡ d.of_ℤ n
  pub zero_size : nought ≡ d.of_ℤ (pos 0)

module _ {W : Type 0} ⦃d : Double W⦄ where
  -- The size at a level after events, one after the other.
  abbrev pub replay : (BookLevelEvent W → W) → List (BookLevelEvent W) → ℕ → W → W
  replay new_size [] k size = size
  replay new_size (e ∷ es) k size =
      replay new_size es k (if eqb_ℤ e.level (pos k) then new_size e else size)

  replay-append :
      (new_size : BookLevelEvent W → W) (es fs : List (BookLevelEvent W)) (k : ℕ) (size : W)
      → replay new_size (es ++ fs) k size ≡ replay new_size fs k (replay new_size es k size)
  replay-append new_size [] fs k size = refl
  replay-append new_size (e ∷ es) fs k size = replay-append new_size es fs k _

  size_at-of_ℤ :
      TellsSizes W → (k : ℕ) (xs : List (OrderBookRow W)) → (m : ℤ) × (size_at k xs ≡ d.of_ℤ m)
  unfolding size_at
  size_at-of_ℤ tells k xs = elim (Option-cases (get_elem? xs k)) [
    | inl none_there ↦ (pos 0, rw (none_there, size_at) tells.zero_size)
    | inr (r, e) ↦ (r.quantity, rw (e, size_at))
  ]

  size_at-eq :
      TellsSizes W
      → (k : ℕ) (xs ys : List (OrderBookRow W)) → d.eq (size_at k xs) (size_at k ys) ≡ true
      → size_at k xs ≡ size_at k ys
  size_at-eq tells k xs ys same =
      let (m, e) = size_at-of_ℤ tells k xs in
      let (n, f) = size_at-of_ℤ tells k ys in
      let told : d.eq (d.of_ℤ m) (d.of_ℤ n) ≡ true = rw⁻¹ (e, f) same in
      e ∙ (tells.sizes m n told ∙ sym f)

  module _ (new_size : BookLevelEvent W → W) (book : OrderBook W) (prev : PrevBook W) where
    level_event_level : (k : ℕ) → (level_event k book prev).level ≡ pos k
    unfolding level_event
    level_event_level k = refl

    replay_later :
        (left k j : ℕ) (size : W)
        → j < k
        → replay new_size (level_events left k book prev) j size ≡ size
    unfolding level_events level_event
    replay_later zero k j size later = refl
    replay_later (suc left) k j size later = ground (arith, replay_later left (k + 1) j size)

    replay_at :
        (left k j : ℕ) (old new : W)
        → new_size (level_event j book prev) ≡ new
        → (is_unchanged j book prev ≡ true → old ≡ new)
        → k ≤ j
        → j < k + left
        → replay new_size (level_events left k book prev) j old ≡ new
    unfolding level_events
    replay_at zero k j old new e same from below = absurd (omega arith)
    replay_at (suc left) k j old new e same from below = elim (Bool-cases (k == j)) [
      | inl here ↦
          let at_j : k ≡ j = (==_iff k j).0 here in
          let skipped : is_unchanged k book prev ≡ is_unchanged j book prev =
            ap (λ i. is_unchanged i book prev) at_j in
          let made : new_size (level_event k book prev) ≡ new =
            ap (λ i. new_size (level_event i book prev)) at_j ∙ e in
          ground (
            arith,
            skipped,
            made,
            same,
            level_event_level k,
            replay_later left (k + 1) j old,
            replay_later left (k + 1) j new,
          )
      | inr elsewhere ↦
          let later = replay_at left (k + 1) j old new e same (ground arith) (omega arith) in
          ground (arith, later, level_event_level k)
    ]

  is_unchanged-sizes :
      TellsSizes W
      → (k : ℕ) (book : OrderBook W) (prev : PrevBook W) → is_unchanged k book prev ≡ true
      → (size_at k prev.bids ≡ size_at k book.bids) × (size_at k prev.asks ≡ size_at k book.asks)
  unfolding is_unchanged
  is_unchanged-sizes tells k book prev h = (
    size_at-eq tells k prev.bids book.bids (ground (arith, h)),
    size_at-eq tells k prev.asks book.asks (ground (arith, h)),
  )

  -- One book, on one side, before the books that follow.
  replay-one_side :
      (new_size : BookLevelEvent W → W) (book : OrderBook W) (prev : PrevBook W)
      → (k : ℕ) (old new last : W) (later : List (BookLevelEvent W)) → k < book_levels
      → new_size (level_event k book prev) ≡ new
      → (is_unchanged k book prev ≡ true → old ≡ new)
      → replay new_size later k new ≡ last
      → replay new_size (level_events book_levels 0 book prev ++ later) k old ≡ last
  replay-one_side new_size book prev k old new last later below made same rest =
      replay-append new_size (level_events book_levels 0 book prev) later k old
      ∙ (ap (replay new_size later k) (
            replay_at new_size book prev book_levels 0 k old new made same (omega arith)
              (omega arith))
          ∙ rest)

  -- Replaying the events of any books one after the other takes the size of each of the first five
  -- levels, on both sides, from the book before to the last book, where `==` tells sizes apart.
  pub replay-on_books :
      TellsSizes W
      → (books : List (OrderBook W)) (prev : PrevBook W) (k : ℕ) → k < book_levels
      → (let (last, events) = on_books books prev in
          (replay (λ e. e.new_bid_size) events k (size_at k prev.bids) ≡ size_at k last.bids)
          × (replay (λ e. e.new_ask_size) events k (size_at k prev.asks) ≡ size_at k last.asks))
  unfolding on_books on_book is_unchanged level_event
  replay-on_books tells [] prev k below = (refl, refl)
  replay-on_books tells (book ∷ books) prev k below =
      let next : PrevBook W = record { bids = book.bids; asks = book.asks } in
      let later = (on_books books next).1 in
      let (bids, asks) = replay-on_books tells books next k below in
      let same = is_unchanged-sizes tells k book prev in
      (
        replay-one_side (λ e. e.new_bid_size) book prev k _ _ _ later below refl (λ u. (same u).0)
            bids,
        replay-one_side (λ e. e.new_ask_size) book prev k _ _ _ later below refl (λ u. (same u).1)
            asks,
      )

-- ===== src/MarketData/PriceMap/Laws.antt =====
-- The map of prices is a finite map, and stays in order.
use finam_tradebot.Prelude.{
  ◌≡◌, refl, ◌⊎◌, Bool, true, false, not, ◌&&◌, none, some, [], ◌∷◌, if◌then◌else◌, arith,
}
use finam_tradebot.MarketData.PriceMap.{PriceMap, assign, erase, find_price}

-- What `std::map` asks of its comparison: a strict weak ordering.
pub record IsStrictWeak {W : Type 0} (before : W → W → Bool) : Type 0 where
  pub irrefl : (x : W) → before x x ≡ false
  pub trans : (x y z : W) → before x y ≡ true → before y z ≡ true → before x z ≡ true
  pub cotrans : (x y z : W) → before x z ≡ true → (before x y ≡ true) ⊎ (before y z ≡ true)

-- Keys in neither order.
abbrev pub same : {W : Type 0} → (W → W → Bool) → W → W → Bool
same before p q = not (before p q) && not (before q p)

module _ {W : Type 0} (before : W → W → Bool) (weak : IsStrictWeak before) where
  open weak use {irrefl, trans, cotrans}

  asym : (x y : W) → before x y ≡ true → before y x ≡ false
  asym x y h = ground (arith, irrefl x, trans x y x)

  same-before : (p q k : W) → same before p q ≡ true → (before p k ≡ before q k)
  same-before p q k h = ground (arith, cotrans p q k, cotrans q p k)

  same-after : (p q k : W) → same before p q ≡ true → (before k p ≡ before k q)
  same-after p q k h = ground (arith, cotrans k q p, cotrans k p q)

module _ {W V : Type 0} (before : W → W → Bool) where
  -- Every key comes after the price.
  abbrev pub AllAfter : W → PriceMap W V → Type 0
  AllAfter k [] = Unit
  AllAfter k ((j, v) ∷ m) = (before k j ≡ true) × AllAfter k m

  -- The keys are in strict order.
  abbrev pub InOrder : PriceMap W V → Type 0
  InOrder [] = Unit
  InOrder ((k, v) ∷ m) = AllAfter k m × InOrder m

  module _ (weak : IsStrictWeak before) where
    open weak use {trans, cotrans}

    find_price-none :
        (k q : W) (m : PriceMap W V)
        → AllAfter k m
        → before k q ≡ false
        → find_price before q m ≡ none
    unfolding find_price
    find_price-none k q [] after h = refl
    find_price-none k q ((j, v) ∷ m) after h = ground (arith, cotrans k q j, asym before weak q j)

    pub find_price-assign :
        (p q : W) (v : V) (m : PriceMap W V)
        → find_price before q (assign before p v m)
          ≡ (if same before p q then some v else find_price before q m)
    unfolding find_price assign
    find_price-assign p q v [] = ground arith
    find_price-assign p q v ((k, w) ∷ m) = ground (
      arith,
      find_price-assign p q v m,
      cotrans k q p,
      cotrans k p q,
      trans q p k,
      asym before weak q k,
      same-before before weak p q k,
      same-after before weak p q k,
      cotrans q p k,
      cotrans p k q,
      cotrans q k p,
    )

    pub find_price-erase :
        (p q : W) (m : PriceMap W V)
        → InOrder m
        → find_price before q (erase before p m)
          ≡ (if same before p q then none else find_price before q m)
    unfolding find_price erase
    find_price-erase p q [] ordered = ground arith
    find_price-erase p q ((k, w) ∷ m) ordered = ground (
      arith,
      find_price-erase p q m ordered.1,
      find_price-none k q m ordered.0,
      cotrans k q p,
      cotrans k p q,
      trans q p k,
      asym before weak q k,
      same-before before weak p q k,
      same-after before weak p q k,
      cotrans q k p,
      cotrans p k q,
    )

    AllAfter-assign :
        (k p : W) (v : V) (m : PriceMap W V)
        → before k p ≡ true
        → AllAfter k m
        → AllAfter k (assign before p v m)
    unfolding assign
    AllAfter-assign k p v [] h after = (h, tt)
    AllAfter-assign k p v ((j, w) ∷ m) h after = ground (arith, AllAfter-assign k p v m h after.1)

    AllAfter-trans : (p k : W) (m : PriceMap W V) → before p k ≡ true → AllAfter k m → AllAfter p m
    AllAfter-trans p k [] h after = tt
    AllAfter-trans p k ((j, w) ∷ m) h after =
        (trans p k j h after.0, AllAfter-trans p k m h after.1)

    pub InOrder-assign :
        (p : W) (v : V) (m : PriceMap W V) → InOrder m → InOrder (assign before p v m)
    unfolding assign
    InOrder-assign p v [] ordered = (tt, tt)
    InOrder-assign p v ((k, w) ∷ m) ordered =
        ground
          (arith, InOrder-assign p v m ordered.1, AllAfter-assign k p v m, AllAfter-trans p k m)

    AllAfter-erase : (k p : W) (m : PriceMap W V) → AllAfter k m → AllAfter k (erase before p m)
    unfolding erase
    AllAfter-erase k p [] after = tt
    AllAfter-erase k p ((j, w) ∷ m) after = ground (arith, AllAfter-erase k p m after.1)

    pub InOrder-erase : (p : W) (m : PriceMap W V) → InOrder m → InOrder (erase before p m)
    unfolding erase
    InOrder-erase p [] ordered = tt
    InOrder-erase p ((k, w) ∷ m) ordered =
        ground (arith, InOrder-erase p m ordered.1, AllAfter-erase k p m ordered.0)

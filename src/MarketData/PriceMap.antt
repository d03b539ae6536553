-- ===== src/MarketData/PriceMap.antt =====
-- `std::map<double, V, Compare>`, as src/market_data/market_data_client.cpp uses it: a list of entries
-- in the order of the comparison, which makes keys the same that it puts in neither order.
pub mod Laws
use finam_tradebot.Prelude.{Bool, Option, none, some, List, [], ◌∷◌, if◌then◌else◌}

abbrev pub PriceMap : Type 0 → Type 0 → Type 0
PriceMap W V = List (W × V)

module _ {W V : Type 0} (before : W → W → Bool) where
  -- `m[p] = v`.
  unfoldable pub assign : W → V → PriceMap W V → PriceMap W V
  assign p v [] = (p, v) ∷ []
  assign p v ((k, w) ∷ m) =
      if before k p
      then (k, w) ∷ assign p v m
      else (if before p k then (p, v) ∷ (k, w) ∷ m else (k, v) ∷ m)

  unfoldable pub erase : W → PriceMap W V → PriceMap W V
  erase p [] = []
  erase p ((k, w) ∷ m) =
      if before k p then (k, w) ∷ erase p m else (if before p k then (k, w) ∷ m else m)

  -- The value at a price, which the statements use.
  unfoldable pub find_price : W → PriceMap W V → Option V
  find_price p [] = none
  find_price p ((k, w) ∷ m) =
      if before k p then find_price p m else (if before p k then none else some w)

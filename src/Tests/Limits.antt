-- ===== src/Tests/Limits.antt =====
-- Runs of the risk manager.
use finam_tradebot.Prelude.{
  ◌≡◌, refl, sym, ◌∙◌, ◌↔◌, inl, inr, true, false, Bool-cases, some, List, [], ◌∷◌, arith,
}
use finam_tradebot.Prelude.Int.{ℤ, pos, negsuc}
use finam_tradebot.Prelude.Map.{Map, insert, lookup, eqb_ℤ, eqb_ℤ_iff}
use finam_tradebot.Prelude.Text.{text}
use finam_tradebot.Core.Types.{ok, OrderSide, OrderRequest, OrderType}
use finam_tradebot.Double.{nought}
use finam_tradebot.Double.Fixed.{Fixed, fixed_double, Fixed-IsOrdered}
use finam_tradebot.Risk.RiskManager
use finam_tradebot.Risk.RiskManager.{
  RiskManager, OpenPos, Assets, AssetParams, Reply, reply, failure, check, check_expiry, on_fill,
  close_pos, fetch_initial_margin, is_buy, AccountReply,
}
use finam_tradebot.Risk.RiskManager.Checks.{WithinLimits, MarginOk, check_iff}
use finam_tradebot.Risk.RiskManager.Opposite.{SameMap, is_opposite, some-opposite}
use finam_tradebot.Risk.RiskManager.Iteration.{AtMostOne, view, view-on_fill}
use finam_tradebot.Risk.RiskManager.Sides.{OneSided, apply_all-OneSided}
use finam_tradebot.Risk.RiskManager.Account.{
  Event, refresh, fill, trip, apply_all, IsPeak, apply_all-IsPeak,
}
use finam_tradebot.Tests.Fixtures.{si_june, num, account, risk, fill_of}

-- An initial margin of 10 a contract.
abbrev margins : Assets
margins t = reply (record {
  long_initial_margin = record { units = pos 10; nanos = pos 0 };
  short_initial_margin = record { units = pos 10; nanos = pos 0 };
})

abbrev request : OrderRequest Fixed
request = record {
  client_id = account;
  symbol = si_june;
  side = OrderSide.buy;
  order_type = OrderType.market;
  price = nought;
  quantity = pos 1;
}

-- The account has lost 1 of 1000.
abbrev calm : RiskManager Fixed
calm = record risk { state = record (risk.state) { daily_pnl = negsuc 999_999_999 } }

check_iff_example : (check margins 0 request calm ≡ ok tt) ↔ (
    WithinLimits calm
    × (check_expiry si_june 0 calm ≡ ok tt)
    × MarginOk (fetch_initial_margin margins si_june true) request calm)
check_iff_example = check_iff margins 0 request calm

abbrev equity : AccountReply
equity = record {
  equity = text "1000";
  money_reserved = text "0";
  available_cash = text "1000";
  unrealized_profit = text "0";
  positions_size = 0;
}

abbrev day : List (Event Fixed)
day =
    refresh (reply equity) 1
    ∷ fill (fill_of OrderSide.buy 100 1)
    ∷ fill (fill_of OrderSide.sell 90 1)
    ∷ trip (text "loss")
    ∷ []

apply_all-IsPeak_example : IsPeak (apply_all day (RiskManager.make RiskManager.default_config))
apply_all-IsPeak_example = apply_all-IsPeak Fixed-IsOrdered RiskManager.default_config day

-- Bought at 100, sold 3 at 110.
round_trip_profit :
    (on_fill
      (fill_of OrderSide.sell 110 3)
      (on_fill (fill_of OrderSide.buy 100 2) risk)).state.liquid_value
    ≡ num 1030
unfolding on_fill RiskManager.take_opposite insert RiskManager.opened close_pos
    RiskManager.close_pnl
round_trip_profit = refl

apply_all-OneSided_example : OneSided (apply_all day (RiskManager.make RiskManager.default_config))
apply_all-OneSided_example = apply_all-OneSided RiskManager.default_config day

abbrev long_position : OpenPos Fixed
long_position = record { entry_price = num 100; qty = pos 2 }

abbrev short_position : OpenPos Fixed
short_position = record { entry_price = num 90; qty = negsuc 0 }

abbrev one_way : Map (OpenPos Fixed)
one_way = (pos 4, long_position) ∷ (pos 7, short_position) ∷ []

abbrev other_way : Map (OpenPos Fixed)
other_way = (pos 7, short_position) ∷ (pos 4, long_position) ∷ []

one_way-other_way : SameMap one_way other_way
unfolding lookup
one_way-other_way j = ground (arith, eqb_ℤ_iff (pos 4) j, eqb_ℤ_iff (pos 7) j)

only_long :
    (j : ℤ) (q : OpenPos Fixed) → lookup j one_way ≡ some q → is_opposite false q ≡ true → j ≡ pos 4
unfolding lookup
only_long j q there long = elim (Bool-cases (eqb_ℤ (pos 4) j)) [
  | inl four ↦ sym ((eqb_ℤ_iff (pos 4) j).0 four)
  | inr far ↦ elim (Bool-cases (eqb_ℤ (pos 7) j)) [
    | inl seven ↦
        let same : some short_position ≡ some q = ground (arith, far, seven, there) in
        absurd (ground (arith, some-opposite false short_position q same, long))
    | inr farther ↦ absurd (ground (arith, far, farther, there))
  ]
]

one_way-AtMostOne : AtMostOne false one_way
one_way-AtMostOne i j p q here there long long' =
    only_long i p here long ∙ sym (only_long j q there long')

view-on_fill_example :
    view (on_fill (fill_of OrderSide.sell 110 2) (record risk { open_pos = one_way }))
    ≡ view (on_fill (fill_of OrderSide.sell 110 2) (record risk { open_pos = other_way }))
unfolding lookup
view-on_fill_example =
    view-on_fill (fill_of OrderSide.sell 110 2) risk one_way other_way (refl, (refl, tt))
      (refl, (refl, tt)) one_way-other_way one_way-AtMostOne

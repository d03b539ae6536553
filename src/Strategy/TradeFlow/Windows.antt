-- ===== src/Strategy/TradeFlow/Windows.antt =====
-- What the windows of src/strategy/trade_flow_analyzer.hpp hold.
use finam_tradebot.Prelude.{
  ℕ, ◌+◌, ◌≤◌, Bool-cases, inl, inr, List, [], ◌∷◌, ◌++◌, arith, ltb, length, length-append,
}
use finam_tradebot.Core.Types.{Timestamp}
use finam_tradebot.Double.{Double}
use finam_tradebot.Strategy.OfiTypes.{TradeEvent}
use finam_tradebot.Strategy.TradeFlow
use finam_tradebot.Strategy.TradeFlow.{
  TradeFlowAnalyzer, pop_while, is_older, on_trade, evict_old, update_avg_volume, pop_front_above,
  build_result,
}

module _ {W : Type 0} ⦃d : Double W⦄ where
  -- The trades of a session, one after the other.
  abbrev pub trade_all : List (TradeEvent W) → TradeFlowAnalyzer W → TradeFlowAnalyzer W
  trade_all [] s = s
  trade_all (e ∷ es) s = trade_all es (on_trade e s)

  length-pop_front_above :
      (n : ℕ) (v : W) (vs : List W)
      → length vs ≤ n
      → length (pop_front_above n (vs ++ (v ∷ []))) ≤ n
  unfolding pop_front_above
  length-pop_front_above n v [] h = ground arith
  length-pop_front_above n v (w ∷ vs) h = ground (arith, length-append vs (v ∷ []))

  on_trade-recent_volumes :
      (e : TradeEvent W) (s : TradeFlowAnalyzer W)
      → length s.recent_volumes ≤ s.cfg.avg_volume_period
      → length (on_trade e s).recent_volumes ≤ (on_trade e s).cfg.avg_volume_period
  unfolding on_trade evict_old update_avg_volume build_result
  on_trade-recent_volumes e s h =
      length-pop_front_above s.cfg.avg_volume_period e.volume s.recent_volumes h

  trade_all-recent_volumes :
      (es : List (TradeEvent W)) (s : TradeFlowAnalyzer W)
      → length s.recent_volumes ≤ s.cfg.avg_volume_period
      → length (trade_all es s).recent_volumes ≤ s.cfg.avg_volume_period
  unfolding on_trade evict_old update_avg_volume build_result
  trade_all-recent_volumes [] s h = h
  trade_all-recent_volumes (e ∷ es) s h =
      trade_all-recent_volumes es (on_trade e s) (on_trade-recent_volumes e s h)

  -- However many trades there are, the average is over no more volumes than the period.
  pub recent_volumes-bound :
      (c : TradeFlow.Config W) (es : List (TradeEvent W))
      → length (trade_all es (TradeFlow.make c)).recent_volumes ≤ c.avg_volume_period
  unfolding TradeFlow.make
  recent_volumes-bound c es = trade_all-recent_volumes es (TradeFlow.make c) (omega arith)

  -- No trade before the time.
  abbrev AllFrom : Timestamp → List (TradeEvent W) → Type 0
  AllFrom t [] = Unit
  AllFrom t (x ∷ xs) = (t ≤ x.ts) × AllFrom t xs

  -- The trades stand in the order of their times.
  abbrev pub InOrder : List (TradeEvent W) → Type 0
  InOrder [] = Unit
  InOrder (x ∷ xs) = AllFrom x.ts xs × InOrder xs

  -- No trade is older than the span.
  abbrev pub AllFresh : Timestamp → ℕ → List (TradeEvent W) → Type 0
  AllFresh now span [] = Unit
  AllFresh now span (x ∷ xs) = (now ≤ x.ts + span) × AllFresh now span xs

  AllFrom-AllFresh :
      (now span t : ℕ) (xs : List (TradeEvent W))
      → now ≤ t + span
      → AllFrom t xs
      → AllFresh now span xs
  AllFrom-AllFresh now span t [] h from = tt
  AllFrom-AllFresh now span t (x ∷ xs) h from =
      (omega (arith, from.0), AllFrom-AllFresh now span t xs h from.1)

  pop_while-AllFresh :
      (now span : ℕ) (xs : List (TradeEvent W))
      → InOrder xs
      → AllFresh now span (pop_while (λ t. is_older now span t.ts) xs)
  unfolding pop_while is_older
  pop_while-AllFresh now span [] ordered = tt
  pop_while-AllFresh now span (x ∷ xs) ordered = elim (Bool-cases (ltb (x.ts + span) now)) [
    | inl old ↦ rw old (pop_while-AllFresh now span xs ordered.1)
    | inr fresh ↦
        let h : now ≤ x.ts + span = ground arith in
        rw fresh (h, AllFrom-AllFresh now span x.ts xs h ordered.0)
  ]

  AllFresh-append :
      (now span : ℕ) (xs : List (TradeEvent W)) (e : TradeEvent W)
      → AllFresh now span xs
      → now ≤ e.ts + span
      → AllFresh now span (xs ++ (e ∷ []))
  AllFresh-append now span [] e fresh h = (h, tt)
  AllFresh-append now span (x ∷ xs) e fresh h = (fresh.0, AllFresh-append now span xs e fresh.1 h)

  -- After a trade, the window holds no trade older than its span, if it was in order before.
  pub on_trade-AllFresh :
      (e : TradeEvent W) (s : TradeFlowAnalyzer W)
      → InOrder s.window
      → AllFresh e.ts s.cfg.tfi_window (on_trade e s).window
  unfolding on_trade evict_old update_avg_volume build_result
  on_trade-AllFresh e s ordered =
      AllFresh-append e.ts s.cfg.tfi_window _ e
        (pop_while-AllFresh e.ts s.cfg.tfi_window s.window ordered) (omega arith)

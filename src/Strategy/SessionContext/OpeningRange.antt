-- ===== src/Strategy/SessionContext/OpeningRange.antt =====
-- The opening range and the bias of src/strategy/session_context.hpp.
use finam_tradebot.Prelude.{
  ℕ, ◌+◌, ◌≤◌, ◌<◌, ◌≡◌, refl, ◌↔◌, Bool, true, false, ◌&&◌, List, [], ◌∷◌, arith, sym, ltb, lt→ltb,
}
use mathlib.Core.Path.{subst}
use finam_tradebot.Prelude.Int.{negsuc}
use finam_tradebot.Core.Types.{Bar}
use finam_tradebot.Double.{Double, IsOrdered, ◌⊖◌, ◌⊗◌, decimal_lit, max, min}
use finam_tradebot.Strategy.SessionContext.{
  SessionContext, long, short, no_bias, on_intraday_bar, finalize_orb, session_reset, decide_bias,
  widen, to_utc_minutes,
}

leb-ltb : {a b : ℕ} → a ≤ b → ltb b a ≡ false
leb-ltb h = ground arith

module _ {W : Type 0} ⦃d : Double W⦄ where
  -- Feeding intraday bars in order.
  abbrev pub feed : List (Bar W) → SessionContext W → SessionContext W
  feed [] s = s
  feed (b ∷ bs) s = feed bs (on_intraday_bar b s)

  -- A bar of the opening window.
  abbrev pub InWindow : SessionContext W → Bar W → Type 0
  InWindow s b =
      (s.cfg.session_open_utc_min ≤ to_utc_minutes b.ts)
      × (to_utc_minutes b.ts < s.cfg.session_open_utc_min + s.cfg.orb_duration)

  -- A session whose range ends before any bar of the opening window gets no bias, at every price:
  -- the empty range is below -1e8.
  pub empty_range :
      (s : SessionContext W) (price : W)
      → d.lt d.lowest (d.literal (negsuc 99_999_999) 0) ≡ true
      → let s' = finalize_orb price (session_reset s) in
        (s'.bias ≡ no_bias) × (s'.orb_finalized ≡ true)
  unfolding finalize_orb session_reset decide_bias
  empty_range s price low = ground arith

  on_intraday_bar-finalized :
      (b : Bar W) (s : SessionContext W) → s.orb_finalized ≡ true → on_intraday_bar b s ≡ s
  unfolding on_intraday_bar
  on_intraday_bar-finalized b s f = rw f

  pub feed-finalized :
      (bs : List (Bar W)) (s : SessionContext W) → s.orb_finalized ≡ true → feed bs s ≡ s
  feed-finalized [] s f = refl
  feed-finalized (b ∷ bs) s f = rw (on_intraday_bar-finalized b s f, feed-finalized bs s f)

  finalize_orb_sets :
      (price : W) (s : SessionContext W) → (finalize_orb price s).orb_finalized ≡ true
  unfolding finalize_orb
  finalize_orb_sets price s = ground arith

  finalize_orb-finalized :
      (price : W) (s : SessionContext W) → s.orb_finalized ≡ true → finalize_orb price s ≡ s
  unfolding finalize_orb
  finalize_orb-finalized price s f = rw f

  -- The first bar after the window, or the first price that is given, fixes the session: no later
  -- bar and no later price changes the range or the bias.
  pub finalize_orb_once :
      (price later : W) (bs : List (Bar W)) (s : SessionContext W)
      → let s' = finalize_orb price s in (feed bs s' ≡ s') × (finalize_orb later s' ≡ s')
  finalize_orb_once price later bs s =
      let set_ = finalize_orb_sets price s in
      (
        feed-finalized bs (finalize_orb price s) set_,
        finalize_orb-finalized later (finalize_orb price s) set_,
      )

  -- The day's range is too narrow against the average range.
  abbrev pub is_narrow : SessionContext W → Bool
  is_narrow s =
      d.lt (decimal_lit 1 9) s.atr
      && d.lt (s.current_day_high ⊖ s.current_day_low) (s.cfg.atr_filter_mult ⊗ s.atr)

  -- No bar has set the range.
  abbrev pub is_unset : SessionContext W → Bool
  is_unset s = d.lt s.orb_high (d.literal (negsuc 99_999_999) 0)

  -- The range can carry a bias.
  abbrev pub IsUsable : SessionContext W → Type 0
  IsUsable s = (is_narrow s ≡ false) × (is_unset s ≡ false)

  -- The bias that is fixed is long exactly when the range is usable and the price is above it, and
  -- short exactly when the range is usable and the price is below it and not above it.
  pub finalize_orb-bias :
      (price : W) (s : SessionContext W)
      → s.orb_finalized ≡ false
      → let bias = (finalize_orb price s).bias in
        ((bias ≡ long) ↔ (IsUsable s × (d.lt s.orb_high price ≡ true)))
        × ((bias ≡ short)
            ↔ (IsUsable s × (d.lt s.orb_high price ≡ false) × (d.lt price s.orb_low ≡ true)))
  unfolding finalize_orb decide_bias
  finalize_orb-bias price s f = ground arith

  abbrev pub AllInWindow : SessionContext W → List (Bar W) → Type 0
  AllInWindow s [] = Unit
  AllInWindow s (b ∷ bs) = InWindow s b × AllInWindow s bs

  -- No bar reaches out of the range.
  abbrev pub AllInside : (high low : W) → List (Bar W) → Type 0
  AllInside high low [] = Unit
  AllInside high low (b ∷ bs) =
      (d.lt high b.high ≡ false) × (d.lt b.low low ≡ false) × AllInside high low bs

  feed-InWindow :
      (b : Bar W) (bs : List (Bar W)) (s : SessionContext W)
      → s.orb_finalized ≡ false
      → InWindow s b
      → feed (b ∷ bs) s ≡ feed bs (widen b s)
  unfolding on_intraday_bar
  feed-InWindow b bs s f w = rw (f, leb-ltb w.0, lt→ltb _ _ w.1)

  module _ (laws : IsOrdered W) where
    open laws use {lt_irrefl, lt_trans}

    lt-max : (a b c : W) → d.lt a c ≡ false → d.lt (max a b) c ≡ false
    lt-max a b c h = ground (arith, lt_trans a b c)

    lt-min : (a b c : W) → d.lt c a ≡ false → d.lt c (min a b) ≡ false
    lt-min a b c h = ground (arith, lt_trans c b a)

    lt-max_self : (a b : W) → d.lt (max a b) b ≡ false
    lt-max_self a b = ground (arith, lt_irrefl b)

    lt-min_self : (a b : W) → d.lt b (min a b) ≡ false
    lt-min_self a b = ground (arith, lt_irrefl b)

    -- The range only widens.
    feed-widens :
        (bs : List (Bar W)) (s : SessionContext W) (x y : W)
        → s.orb_finalized ≡ false
        → AllInWindow s bs
        → d.lt s.orb_high x ≡ false
        → d.lt y s.orb_low ≡ false
        → (d.lt (feed bs s).orb_high x ≡ false) × (d.lt y (feed bs s).orb_low ≡ false)
    unfolding widen
    feed-widens [] s x y f w h l = (h, l)
    feed-widens (b ∷ bs) s x y f w h l = rw (feed-InWindow b bs s f w.0) (
        feed-widens bs (widen b s) x y f w.1 (lt-max s.orb_high b.high x h)
          (lt-min s.orb_low b.low y l))

    -- While the session is open, bars of the opening window leave it open and widen the range so
    -- that no bar of theirs has a high above it or a low below it.
    pub feed-AllInside :
        (bs : List (Bar W)) (s : SessionContext W)
        → s.orb_finalized ≡ false
        → AllInWindow s bs
        → let s' = feed bs s in (s'.orb_finalized ≡ false) × AllInside s'.orb_high s'.orb_low bs
    unfolding widen
    feed-AllInside [] s f w = (f, tt)
    feed-AllInside (b ∷ bs) s f w =
        let (open_, inside) = feed-AllInside bs (widen b s) f w.1 in
        let (h, l) =
          feed-widens bs (widen b s) b.high b.low f w.1 (lt-max_self s.orb_high b.high)
            (lt-min_self s.orb_low b.low) in
        subst (λ s'. (s'.orb_finalized ≡ false) × AllInside s'.orb_high s'.orb_low (b ∷ bs))
          (sym (feed-InWindow b bs s f w.0)) (open_, (h, l, inside))

-- ===== src/Strategy/SessionContext/NarrowRange.antt =====
-- The NR7 test of src/strategy/session_context.hpp, against the plain history of ranges.
pub mod Ring
use finam_tradebot.Prelude.{
  drop, drop-cons, ◌∙◌, ap, leb, ℕ, zero, suc, ◌+◌, ◌-◌, ◌≤◌, ◌<◌, ◌≡◌, refl, Bool, true, false,
  ◌&&◌, List, [], ◌∷◌, arith, if◌then◌else◌, length, get_or, ltb, Bool-cases, inl, inr,
}
use finam_tradebot.Core.Types.{Bar}
use finam_tradebot.Double.{Double, nought, ◌⊖◌}
use finam_tradebot.Strategy.SessionContext.{
  SessionContext, Config, make, on_daily_bar, push_range, update_atr, update_nr7, all_wider,
}
use finam_tradebot.Strategy.SessionContext.NarrowRange.Ring.{
  Holds, make-Holds, push_range-Holds, update_atr-Holds, update_nr7-Holds,
}

abbrev IsPeriod : ℕ → Type 0
IsPeriod period = (0 < period) × (period ≤ 30)

module _ {W : Type 0} ⦃d : Double W⦄ where
  -- The ranges so far, the newest first.
  abbrev pub history_of : List (Bar W) → List W → List W
  history_of [] h = h
  history_of (b ∷ bs) h = history_of bs ((b.high ⊖ b.low) ∷ h)

  abbrev pub feed_daily : List (Bar W) → SessionContext W → SessionContext W
  feed_daily [] s = s
  feed_daily (b ∷ bs) s = feed_daily bs (on_daily_bar b s)

  cfg-make : (c : Config W) → (make c).cfg ≡ c
  unfolding make
  cfg-make c = refl

  -- None of the first `n` ranges of a list is `x` or less.
  abbrev pub all_above : W → ℕ → List W → Bool
  all_above x zero h = true
  all_above x (suc n) [] = true
  all_above x (suc n) (y ∷ h) = if d.le y x then false else all_above x n h

  -- The newest of `period` ranges is below the others.
  abbrev pub is_narrowest : ℕ → List W → Bool
  is_narrowest period h =
      leb period (length h) && all_above (get_or h 0 nought) (period - 1) (drop 1 h)

  all_wider_lem :
      (left i : ℕ) (h : List W) (s : SessionContext W)
      → Holds h s
      → 0 < s.daily_count
      → i + left ≤ s.daily_count
      → all_wider s left i ≡ all_above (get_or h 0 nought) left (drop i h)
  unfolding all_wider
  all_wider_lem zero i h s v some_ fits = refl
  all_wider_lem (suc left) i h s v some_ fits =
      let inside : i < s.daily_count = omega arith in
      let here : i < length h = omega (arith, v.count) in
      let next : suc i + left ≤ s.daily_count = omega arith in
      let step : i + 1 ≡ suc i = omega arith in
      rw (
        v.newest i inside,
        v.newest 0 some_,
        step,
        all_wider_lem left (suc i) h s v some_ next,
        drop-cons i h nought here,
      )

  update_nr7_lem :
      (h : List W) (s : SessionContext W)
      → Holds h s
      → 0 < s.cfg.nr7_period
      → s.cfg.nr7_period ≤ 30
      → (update_nr7 s).nr7_confirmed ≡ is_narrowest s.cfg.nr7_period h
  unfolding update_nr7
  update_nr7_lem h s v positive small = elim (Bool-cases (ltb s.daily_count s.cfg.nr7_period)) [
    | inl few ↦ rw few (ground (arith, v.count))
    | inr enough ↦
        rw (enough, all_wider_lem (s.cfg.nr7_period - 1) 1 h s v (ground arith) (ground arith))
          (ground (arith, v.count))
  ]

  cfg-update_atr : (range : W) (s : SessionContext W) → (update_atr range s).cfg ≡ s.cfg
  unfolding update_atr
  cfg-update_atr range s = ground arith

  cfg-on_daily_bar : (b : Bar W) (s : SessionContext W) → (on_daily_bar b s).cfg ≡ s.cfg
  unfolding on_daily_bar update_nr7 push_range
  cfg-on_daily_bar b s =
      ground (arith, cfg-update_atr (b.high ⊖ b.low) (push_range (b.high ⊖ b.low) s))

  on_daily_bar-Holds :
      (b : Bar W) (h : List W) (s : SessionContext W)
      → Holds h s
      → Holds ((b.high ⊖ b.low) ∷ h) (on_daily_bar b s)
  unfolding on_daily_bar
  on_daily_bar-Holds b h s v =
      let range = b.high ⊖ b.low in
      update_nr7-Holds (range ∷ h) (update_atr range (push_range range s))
        (update_atr-Holds range (range ∷ h) (push_range range s) (push_range-Holds range h s v))

  -- The confirmation is that of the history that the session holds.
  abbrev Tracks : List W → SessionContext W → Type 0
  Tracks h s = Holds h s × (s.nr7_confirmed ≡ is_narrowest s.cfg.nr7_period h)

  on_daily_bar-confirmed :
      (b : Bar W) (h : List W) (s : SessionContext W)
      → Holds h s
      → IsPeriod s.cfg.nr7_period
      → (on_daily_bar b s).nr7_confirmed ≡ is_narrowest s.cfg.nr7_period ((b.high ⊖ b.low) ∷ h)
  unfolding on_daily_bar push_range
  on_daily_bar-confirmed b h s v (positive, small) =
      let range = b.high ⊖ b.low in
      let s₁ = update_atr range (push_range range s) in
      let same = cfg-update_atr range (push_range range s) in
      let held =
        update_atr-Holds range (range ∷ h) (push_range range s) (push_range-Holds range h s v) in
      update_nr7_lem (range ∷ h) s₁ held (rw same positive) (rw same small)
      ∙ ap (λ (c : Config W). is_narrowest c.nr7_period (range ∷ h)) same

  on_daily_bar-Tracks :
      (b : Bar W) (h : List W) (s : SessionContext W)
      → Holds h s
      → IsPeriod s.cfg.nr7_period
      → Tracks ((b.high ⊖ b.low) ∷ h) (on_daily_bar b s)
  on_daily_bar-Tracks b h s v period = (
    on_daily_bar-Holds b h s v,
    rw (cfg-on_daily_bar b s) (on_daily_bar-confirmed b h s v period),
  )

  feed_daily-Tracks :
      (bs : List (Bar W)) (h : List W) (s : SessionContext W)
      → Tracks h s
      → IsPeriod s.cfg.nr7_period
      → ((feed_daily bs s).cfg ≡ s.cfg) × Tracks (history_of bs h) (feed_daily bs s)
  feed_daily-Tracks [] h s v period = (refl, v)
  feed_daily-Tracks (b ∷ bs) h s v period =
      let same = cfg-on_daily_bar b s in
      let (kept, tracks) =
        feed_daily-Tracks bs ((b.high ⊖ b.low) ∷ h) (on_daily_bar b s)
          (on_daily_bar-Tracks b h s v.0 period) (rw same period) in
      (kept ∙ same, tracks)

  -- For a period from 1 to 30, after any bars have been fed to a new session, `nr7_confirmed` says
  -- exactly that there have been as many bars as the period and that no range among the period's
  -- other ones is as narrow as the newest or narrower.
  pub nr7_confirmed_lem :
      (c : Config W) (b : Bar W) (bs : List (Bar W))
      → 0 < c.nr7_period
      → c.nr7_period ≤ 30
      → (feed_daily (b ∷ bs) (make c)).nr7_confirmed
        ≡ is_narrowest c.nr7_period (history_of (b ∷ bs) [])
  nr7_confirmed_lem c b bs positive small =
      let own : (on_daily_bar b (make c)).cfg ≡ c = cfg-on_daily_bar b (make c) ∙ cfg-make c in
      let first =
        on_daily_bar-Tracks b [] (make c) (make-Holds c) (rw (cfg-make c) (positive, small)) in
      let (kept, tracks) =
        feed_daily-Tracks bs ((b.high ⊖ b.low) ∷ []) (on_daily_bar b (make c)) first
          (rw own (positive, small)) in
      tracks.1
      ∙ ap (λ (k : Config W). is_narrowest k.nr7_period (history_of (b ∷ bs) [])) (kept ∙ own)

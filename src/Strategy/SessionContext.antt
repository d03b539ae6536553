-- ===== src/Strategy/SessionContext.antt =====
-- src/strategy/session_context.hpp: the opening range, the daily ranges and the bias of a session.
pub mod OpeningRange
pub mod NarrowRange
use finam_tradebot.Prelude.{
  ℕ, zero, suc, ◌+◌, ◌-◌, ◌/◌, ◌%◌, Bool, true, false, List, ◌&&◌, get_or, set, replicate, ltb,
  if◌then◌else◌,
}
use finam_tradebot.Prelude.Int.{pos, negsuc}
use finam_tradebot.Core.Types.{Timestamp, second, Bar}
use finam_tradebot.Double.{
  Double, ◌⊕◌, ◌⊖◌, ◌⊗◌, ◌⊘◌, ◌≺◌, ◌≼◌, nought, whole, decimal_lit, max, min,
}

pub record Config (W : Type 0) : Type 0 where
  -- In minutes.
  pub orb_duration : ℕ
  pub nr7_period : ℕ
  pub atr_period : ℕ
  pub atr_filter_mult : W
  pub session_open_utc_min : ℕ

pub data Bias : Type 0 where
  long short no_bias : Bias

pub record SessionContext (W : Type 0) : Type 0 where
  pub cfg : Config W
  pub daily_ranges : List W
  pub daily_idx : ℕ
  pub daily_count : ℕ
  pub atr : W
  pub nr7_confirmed : Bool
  pub orb_high : W
  pub orb_low : W
  pub current_day_high : W
  pub current_day_low : W
  pub bias : Bias
  pub orb_finalized : Bool

abbrev pub max_daily_history : ℕ
max_daily_history = 30

-- Minutes since midnight UTC. `to_time_t` drops the part of a second.
unfoldable pub to_utc_minutes : Timestamp → ℕ
to_utc_minutes ts = (ts / second) % 86400 / 60

unfoldable pub allows_long : Bias → Bool
allows_long long = true
allows_long _ = false

unfoldable pub allows_short : Bias → Bool
allows_short short = true
allows_short _ = false

module _ {W : Type 0} ⦃d : Double W⦄ where
  unfoldable pub default_config : Config W
  default_config = record {
    orb_duration = 15;
    nr7_period = 7;
    atr_period = 14;
    atr_filter_mult = decimal_lit 8 1;
    session_open_utc_min = 420;
  }

  unfoldable pub make : Config W → SessionContext W
  make c = record {
    cfg = c;
    daily_ranges = replicate max_daily_history nought;
    daily_idx = 0;
    daily_count = 0;
    atr = nought;
    nr7_confirmed = false;
    orb_high = d.lowest;
    orb_low = d.highest;
    current_day_high = d.lowest;
    current_day_low = d.highest;
    bias = no_bias;
    orb_finalized = false;
  }

  unfoldable pub update_atr : W → SessionContext W → SessionContext W
  update_atr range s =
      if s.atr ≺ decimal_lit 1 9
      then record s { atr = range }
      else (let k = whole 1 ⊘ d.of_ℤ (pos s.cfg.atr_period) in
          record s { atr = s.atr ⊗ (whole 1 ⊖ k) ⊕ range ⊗ k })

  -- The range `back` bars before the last one: index `(daily_idx - 1 - back + 30) % 30`.
  unfoldable pub range_back : SessionContext W → ℕ → W
  range_back s back =
      get_or s.daily_ranges ((s.daily_idx + max_daily_history - 1 - back) % max_daily_history)
        nought

  -- The loop of `update_nr7` over `i`, with `left` rounds to go.
  unfoldable pub all_wider : SessionContext W → (left i : ℕ) → Bool
  all_wider s zero i = true
  all_wider s (suc left) i =
      if range_back s i ≼ range_back s 0 then false else all_wider s left (i + 1)

  unfoldable pub update_nr7 : SessionContext W → SessionContext W
  update_nr7 s =
      if ltb s.daily_count s.cfg.nr7_period
      then record s { nr7_confirmed = false }
      else record s { nr7_confirmed = all_wider s (s.cfg.nr7_period - 1) 1 }

  unfoldable pub push_range : W → SessionContext W → SessionContext W
  push_range range s = record s {
    daily_ranges = set s.daily_ranges s.daily_idx range;
    daily_idx = (s.daily_idx + 1) % max_daily_history;
    daily_count = if ltb s.daily_count max_daily_history then s.daily_count + 1 else s.daily_count;
  }

  unfoldable pub on_daily_bar : Bar W → SessionContext W → SessionContext W
  on_daily_bar bar s =
      let range = bar.high ⊖ bar.low in update_nr7 (update_atr range (push_range range s))

  -- The bias that `finalize_orb` decides on, in the order of its returns.
  unfoldable pub decide_bias : W → SessionContext W → Bias
  decide_bias price s =
      let day_range = s.current_day_high ⊖ s.current_day_low in
      if (decimal_lit 1 9 ≺ s.atr) && (day_range ≺ s.cfg.atr_filter_mult ⊗ s.atr)
      then no_bias
      else (if s.orb_high ≺ d.literal (negsuc 99_999_999) 0
          then no_bias
          else (if s.orb_high ≺ price
              then long
              else (if price ≺ s.orb_low then short else no_bias)))

  unfoldable pub finalize_orb : W → SessionContext W → SessionContext W
  finalize_orb price s =
      if s.orb_finalized then s else record s { orb_finalized = true; bias = decide_bias price s }

  unfoldable pub widen : Bar W → SessionContext W → SessionContext W
  widen bar s = record s {
    orb_high = max s.orb_high bar.high;
    orb_low = min s.orb_low bar.low;
    current_day_high = max s.current_day_high bar.high;
    current_day_low = min s.current_day_low bar.low;
  }

  unfoldable pub on_intraday_bar : Bar W → SessionContext W → SessionContext W
  on_intraday_bar bar s =
      let bar_min = to_utc_minutes bar.ts in
      let opening = s.cfg.session_open_utc_min in
      if s.orb_finalized
      then s
      else (if ltb bar_min opening
          then s
          else (if ltb bar_min (opening + s.cfg.orb_duration)
              then widen bar s
              else finalize_orb bar.close s))

  unfoldable pub session_reset : SessionContext W → SessionContext W
  session_reset s = record s {
    orb_high = d.lowest;
    orb_low = d.highest;
    current_day_high = d.lowest;
    current_day_low = d.highest;
    bias = no_bias;
    orb_finalized = false;
  }

  unfoldable pub size_multiplier : SessionContext W → W
  size_multiplier s = if s.nr7_confirmed then whole 1 else decimal_lit 5 1

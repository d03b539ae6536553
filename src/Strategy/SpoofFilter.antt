-- ===== src/Strategy/SpoofFilter.antt =====
-- src/strategy/spoof_filter.hpp: price levels where large orders are placed and cancelled.
pub mod Calls
pub mod History
use finam_tradebot.Prelude.{ℕ, ◌+◌, ◌%◌, ◌^◌, ◌*◌, Bool, false, none, some, [], ltb, if◌then◌else◌}
use finam_tradebot.Prelude.Int.{ℤ, pos}
use finam_tradebot.Prelude.Map.{Map, lookup, insert, drop_if}
use finam_tradebot.Core.Types.{Timestamp, second}
use finam_tradebot.Double.{Double, ◌⊗◌, ◌⊘◌, ◌≼◌, whole, decimal_lit}

pub record Config (W : Type 0) : Type 0 where
  pub min_large_qty : W
  pub max_cancel_ratio : W
  pub min_events : ℕ
  -- In nanoseconds.
  pub spoof_window : ℕ
  pub flag_ttl : ℕ

pub record LevelStats : Type 0 where
  pub adds : ℕ
  pub cancels : ℕ
  pub fills : ℕ
  pub last_add_ts : Timestamp

pub record SpoofFilter (W : Type 0) : Type 0 where
  pub cfg : Config W
  pub stats : Map LevelStats
  pub flagged : Map Timestamp

-- `uint32_t` addition.
abbrev pub add32 : ℕ → ℕ → ℕ
add32 a b = (a + b) % 2 ^ 32

abbrev pub fresh_level : LevelStats
fresh_level = record { adds = 0; cancels = 0; fills = 0; last_add_ts = 0 }

-- `stats_[key]`, which makes a fresh entry where there is none.
unfoldable pub level_stats : ℤ → Map LevelStats → LevelStats
level_stats key m = elim (lookup key m) [ none ↦ fresh_level | some s ↦ s ]

-- `now - last_add_ts > spoof_window`, with the subtraction moved to the other side.
unfoldable pub is_stale : ℕ → Timestamp → LevelStats → Bool
is_stale span now s = ltb (s.last_add_ts + span) now

module _ {W : Type 0} ⦃d : Double W⦄ where
  unfoldable pub default_config : Config W
  default_config = record {
    min_large_qty = whole 10;
    max_cancel_ratio = decimal_lit 80 2;
    min_events = 5;
    spoof_window = 60 * second;
    flag_ttl = 300 * second;
  }

  unfoldable pub make : Config W → SpoofFilter W
  make c = record { cfg = c; stats = []; flagged = [] }

  unfoldable pub round_price : W → ℤ
  round_price p = d.truncate (d.round (p ⊗ whole 100))

  unfoldable pub evict_old : Timestamp → SpoofFilter W → SpoofFilter W
  evict_old now f = record f { stats = drop_if (is_stale f.cfg.spoof_window now) f.stats }

  unfoldable pub on_large_add : W → Timestamp → SpoofFilter W → SpoofFilter W
  on_large_add price ts f =
      let key = round_price price in
      let s = level_stats key f.stats in
      evict_old ts (record f {
        stats = insert key (record s { adds = add32 s.adds 1; last_add_ts = ts }) f.stats;
      })

  unfoldable pub cancel_ratio : LevelStats → W
  cancel_ratio s = d.of_ℤ (pos s.cancels) ⊘ d.of_ℤ (pos (add32 s.cancels s.fills))

  unfoldable pub maybe_flag : W → Timestamp → SpoofFilter W → SpoofFilter W
  maybe_flag price ts f =
      let key = round_price price in
      let s = level_stats key f.stats in
      if ltb (add32 s.cancels s.fills) f.cfg.min_events
      then f
      else (if f.cfg.max_cancel_ratio ≼ cancel_ratio s
          then record f { flagged = insert key ts f.flagged }
          else f)

  unfoldable pub on_large_cancel : W → Timestamp → SpoofFilter W → SpoofFilter W
  on_large_cancel price ts f =
      let key = round_price price in
      let s = level_stats key f.stats in
      let f' = record f { stats = insert key (record s { cancels = add32 s.cancels 1 }) f.stats } in
      evict_old ts (maybe_flag price ts f')

  unfoldable pub on_large_fill : W → SpoofFilter W → SpoofFilter W
  on_large_fill price f =
      let key = round_price price in
      let s = level_stats key f.stats in
      record f { stats = insert key (record s { fills = add32 s.fills 1 }) f.stats }

  -- `now - flagged < flag_ttl`, with the subtraction moved to the other side.
  unfoldable pub is_spoofed : W → Timestamp → SpoofFilter W → Bool
  is_spoofed price now f = elim (lookup (round_price price) f.flagged) [
    | none ↦ false
    | some since ↦ ltb now (since + f.cfg.flag_ttl)
  ]

  unfoldable pub session_reset : SpoofFilter W → SpoofFilter W
  session_reset f = record f { stats = []; flagged = [] }

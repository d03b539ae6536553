-- ===== src/Core/Maintenance.antt =====
-- src/core/maintenance.hpp: the daily window in which the exchange is down. The stop flag and the
-- clock, as the loop reads them after each sleep, are a list.
pub mod Wait
use finam_tradebot.Prelude.{
  ℕ, ◌/◌, ◌%◌, Bool, true, false, ◌&&◌, Option, none, some, List, [], ◌∷◌, ltb, leb, if◌then◌else◌,
}
use finam_tradebot.Core.Types.{Timestamp, second}

-- Minutes of the day, in UTC. (The poll interval is the time between two readings.)
pub record Config : Type 0 where
  pub start_utc_min : ℕ
  pub end_utc_min : ℕ

abbrev pub default_config : Config
default_config = record { start_utc_min = 120; end_utc_min = 195 }

unfoldable pub utc_min : Timestamp → ℕ
utc_min now = now / second % 86400 / 60

unfoldable pub in_window : Config → ℕ → Bool
in_window c m = leb c.start_utc_min m && ltb m c.end_utc_min

unfoldable pub is_active : Config → Timestamp → Bool
is_active c now = in_window c (utc_min now)

-- What one round of the loop reads: the stop flag before the sleep, and the time after it.
pub record Reading : Type 0 where
  pub stop : Bool
  pub now : Timestamp

-- The loop; `none` is still waiting at the end of the readings.
unfoldable pub poll : Config → List Reading → Option Bool
poll c [] = none
poll c (r ∷ rs) =
    let rest = poll c rs in
    if r.stop then some false else (if is_active c r.now then rest else some true)

unfoldable pub wait_if_active : Config → Timestamp → List Reading → Option Bool
wait_if_active c now rs = if is_active c now then poll c rs else some true

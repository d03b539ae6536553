-- ===== src/Core/Maintenance/Wait.antt =====
-- When the wait of src/core/maintenance.hpp ends.
use finam_tradebot.Prelude.{
  ◌≡◌, ◌⊎◌, inl, inr, Bool, true, false, not, some, List, [], ◌∷◌, arith, if◌then◌else◌,
}
use finam_tradebot.Core.Types.{Timestamp}
use finam_tradebot.Core.Maintenance.{Config, Reading, is_active, poll, wait_if_active}

-- The last time that is read before the wait ends.
abbrev pub last_read : Config → Timestamp → List Reading → Timestamp
last_read c now [] = now
last_read c now (r ∷ rs) =
    let later = last_read c r.now rs in
    if is_active c now then (if r.stop then now else later) else now

-- Some reading has no flag set before it and lies outside the window.
abbrev pub WindowEnds : Config → List Reading → Type 0
WindowEnds c [] = ⊥
WindowEnds c (r ∷ rs) = (r.stop ≡ false) × ((is_active c r.now ≡ false) ⊎ WindowEnds c rs)

resumes : (c : Config) (rs : List Reading) → WindowEnds c rs → poll c rs ≡ some true
unfolding poll
resumes c [] ends = absurd ends
resumes c (r ∷ rs) (runs, inl outside) = rw (runs, outside)
resumes c (r ∷ rs) (runs, inr later) = ground (arith, runs, resumes c rs later)

-- The wait answers whether the window is over at the last time that it has read: true outside it,
-- and false inside it, where the flag has stopped it.
pub is_active-last_read :
    (c : Config) (now : Timestamp) (rs : List Reading) (answer : Bool)
    → wait_if_active c now rs ≡ some answer
    → is_active c (last_read c now rs) ≡ not answer
unfolding wait_if_active poll
is_active-last_read c now [] answer e = ground arith
is_active-last_read c now (r ∷ rs) answer e = ground (arith, is_active-last_read c r.now rs answer)

-- The wait answers true, if the window ends at a reading before the flag is set.
pub wait_if_active-WindowEnds :
    (c : Config) (now : Timestamp) (rs : List Reading)
    → WindowEnds c rs
    → wait_if_active c now rs ≡ some true
unfolding wait_if_active
wait_if_active-WindowEnds c now rs ends = ground (arith, resumes c rs ends)

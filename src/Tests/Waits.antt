-- ===== src/Tests/Waits.antt =====
-- Runs of the reconnect delay and of the maintenance window.
use finam_tradebot.Prelude.{
  List, [], ◌∷◌, ◌+◌, ◌*◌, ◌≡◌, refl, true, false, some, [], ◌∷◌, arith, if◌then◌else◌,
}
use finam_tradebot.Prelude.Int.{pos, pos_part}
use finam_tradebot.Core.Types.{second}
use finam_tradebot.Double.Fixed.{Fixed, fixed_double}
use finam_tradebot.Core.Backoff
use finam_tradebot.Core.Backoff.{Backoff, Waited, wait, compute_delay, capped_delay}
use finam_tradebot.Core.Backoff.Wait.{SleptWithin, wait_lem}
use finam_tradebot.Core.Maintenance

-- The highest value of the distribution, and the lowest.
abbrev highest_draw : Fixed → Fixed → Fixed
highest_draw lo hi = hi

abbrev fresh : Backoff Fixed
fresh = Backoff.make Backoff.default_config

wait_lem_example :
    (b : Backoff Fixed) × (w : Waited) × (wait highest_draw (λ i. false) fresh ≡ some (b, w))
    × SleptWithin (pos_part (compute_delay highest_draw fresh)) w
    × (b.attempt ≡ (if w.completed then fresh.attempt + 1 else fresh.attempt))
unfolding Backoff.make Backoff.default_config
wait_lem_example = wait_lem highest_draw (λ i. false) fresh (omega arith)

-- The eighth delay can be longer than the cap of 30 seconds.
over_the_cap : compute_delay highest_draw (record fresh { attempt = 7 }) ≡ pos 37_500
unfolding compute_delay capped_delay Backoff.make Backoff.default_config
over_the_cap = refl

-- Read at three and at half past three.
abbrev readings : List Maintenance.Reading
readings =
    record { stop = false; now = 10_800 * second }
    ∷ record { stop = false; now = 12_600 * second }
    ∷ []

-- From half past two on.
resumes :
    Maintenance.wait_if_active Maintenance.default_config (9_000 * second) readings ≡ some true
unfolding Maintenance.wait_if_active Maintenance.poll Maintenance.is_active Maintenance.in_window
    Maintenance.utc_min
resumes = refl

-- ===== src/Core/Backoff.antt =====
-- src/core/backoff.hpp: the delay before a reconnect. The draw from the uniform distribution is a
-- function of its bounds, and the stop flag a function of the round of the loop that reads it.
pub mod Wait
use Prim.Native.Nat.{min}
use finam_tradebot.Prelude.{
  ℕ, zero, suc, ◌+◌, ◌-◌, ◌^◌, Bool, true, false, Option, none, some, ◌==◌, if◌then◌else◌,
}
use finam_tradebot.Prelude.Int.{ℤ, pos, pos_part}
use finam_tradebot.Double
use finam_tradebot.Double.{Double, ◌⊕◌, ◌⊖◌, ◌⊗◌, whole, decimal_lit}

-- Times in milliseconds.
pub record Config (W : Type 0) : Type 0 where
  pub base : ℕ
  pub cap : ℕ
  pub tick : ℕ
  pub jitter_pct : W

pub record Backoff (W : Type 0) : Type 0 where
  pub cfg : Config W
  pub attempt : ℕ

-- What a wait comes to: whether it was completed, and the time slept.
pub record Waited : Type 0 where
  pub completed : Bool
  pub slept : ℕ

unfoldable pub add_sleep : ℕ → Option Waited → Option Waited
add_sleep ms none = none
add_sleep ms (some w) = some (record w { slept = ms + w.slept })

-- The loop of `wait`, on fuel; `none` is out of fuel.
unfoldable pub wait_loop : (fuel tick : ℕ) → (ℕ → Bool) → (round remaining : ℕ) → Option Waited
wait_loop zero tick stop i remaining =
    if remaining == 0 then some (record { completed = true; slept = 0 }) else none
wait_loop (suc fuel) tick stop i remaining =
    let sleep = min remaining tick in
    let rest = wait_loop fuel tick stop (i + 1) (remaining - sleep) in
    if remaining == 0
    then some (record { completed = true; slept = 0 })
    else (if stop i then some (record { completed = false; slept = 0 }) else add_sleep sleep rest)

module _ {W : Type 0} ⦃d : Double W⦄ where
  unfoldable pub default_config : Config W
  default_config = record { base = 500; cap = 30_000; tick = 50; jitter_pct = decimal_lit 25 2 }

  unfoldable pub make : Config W → Backoff W
  make c = record { cfg = c; attempt = 0 }

  -- `base * 2^attempt`, at most 64 times the base, clamped to the cap.
  unfoldable pub capped_delay : Backoff W → W
  capped_delay b =
      Double.min (d.of_ℤ (pos b.cfg.base) ⊗ d.of_ℤ (pos (2 ^ min b.attempt 6)))
        (d.of_ℤ (pos b.cfg.cap))

  unfoldable pub compute_delay : (W → W → W) → Backoff W → ℤ
  compute_delay draw b = d.truncate (
      draw (capped_delay b ⊗ (whole 1 ⊖ b.cfg.jitter_pct))
        (capped_delay b ⊗ (whole 1 ⊕ b.cfg.jitter_pct)))

  unfoldable pub next_delay : (W → W → W) → Backoff W → Backoff W × ℤ
  next_delay draw b = (record b { attempt = b.attempt + 1 }, compute_delay draw b)

  unfoldable pub reset : Backoff W → Backoff W
  reset b = record b { attempt = 0 }

  unfoldable pub after_wait : Backoff W → Waited → Backoff W × Waited
  after_wait b w = (if w.completed then record b { attempt = b.attempt + 1 } else b, w)

  -- The fuel is the delay: each round sleeps a millisecond at least.
  unfoldable pub wait : (W → W → W) → (ℕ → Bool) → Backoff W → Option (Backoff W × Waited)
  wait draw stop b =
      let delay = pos_part (compute_delay draw b) in
      elim (wait_loop delay b.cfg.tick stop 0 delay) [
        | none ↦ none
        | some w ↦ some (after_wait b w)
      ]

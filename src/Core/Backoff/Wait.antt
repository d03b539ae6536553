-- ===== src/Core/Backoff/Wait.antt =====
-- The waits of src/core/backoff.hpp end.
use Prim.Native.Nat.{min}
use finam_tradebot.Prelude.{
  ℕ, zero, suc, ◌+◌, ◌-◌, ◌≤◌, ◌<◌, ◌≡◌, refl, ◌↔◌, inl, inr, Bool, true, false, Bool-cases,
  Option-cases, some, ◌==◌, if◌then◌else◌, arith,
}
use finam_tradebot.Prelude.Int.{pos_part}
use finam_tradebot.Double.{Double}
use finam_tradebot.Core.Backoff.{
  Backoff, Waited, add_sleep, wait_loop, wait, after_wait, compute_delay,
}

-- The wait slept no longer than the delay, and was completed exactly if it slept all of it.
pub record SleptWithin (delay : ℕ) (w : Waited) : Type 0 where
  pub bounded : w.slept ≤ delay
  pub complete : (w.completed ≡ true) ↔ (w.slept ≡ delay)

wait_loop-SleptWithin :
    (fuel tick : ℕ) (stop : ℕ → Bool) (i remaining : ℕ)
    → 0 < tick
    → remaining ≤ fuel
    → (w : Waited) × (wait_loop fuel tick stop i remaining ≡ some w) × SleptWithin remaining w
unfolding wait_loop add_sleep
wait_loop-SleptWithin zero tick stop i remaining p q = (
  record { completed = true; slept = 0 },
  ground arith,
  record { bounded = omega arith; complete = (λ _. omega arith, λ _. refl) },
)
wait_loop-SleptWithin (suc fuel) tick stop i remaining p q = elim (Bool-cases (remaining == 0)) [
  | inl none_left ↦ (
    record { completed = true; slept = 0 },
    rw none_left,
    record { bounded = omega arith; complete = (λ _. ground arith, λ _. refl) },
  )
  | inr some_left ↦ elim (Bool-cases (stop i)) [
    | inl stopped ↦ (
      record { completed = false; slept = 0 },
      rw (some_left, stopped),
      record { bounded = omega arith; complete = ((λ h. cc), λ h. absurd (ground arith)) },
    )
    | inr runs ↦
        let sleep = min remaining tick in
        let positive : 0 < remaining = ground arith in
        let (w, e, within) =
          wait_loop-SleptWithin fuel tick stop (i + 1) (remaining - sleep) p (omega arith) in
        (
          record w { slept = sleep + w.slept },
          rw (some_left, runs, e),
          record {
            bounded = omega (arith, within.bounded);
            complete =
                (λ h. omega (arith, within.complete.0 h), λ h. within.complete.1 (omega arith));
          },
        )
  ]
]

wait_loop-woken :
    (fuel tick : ℕ) (stop : ℕ → Bool) (i remaining : ℕ) (w : Waited)
    → wait_loop fuel tick stop i remaining ≡ some w
    → w.completed ≡ false
    → (j : ℕ) × (stop j ≡ true)
unfolding wait_loop add_sleep
wait_loop-woken zero tick stop i remaining w e woken = absurd (ground arith)
wait_loop-woken (suc fuel) tick stop i remaining w e woken =
    let sleep = min remaining tick in
    elim (Bool-cases (stop i)) [
      | inl stopped ↦ (i, stopped)
      | inr runs ↦ elim (Option-cases (wait_loop fuel tick stop (i + 1) (remaining - sleep))) [
        | inl out_of_fuel ↦ absurd (ground arith)
        | inr (later, rest) ↦
            wait_loop-woken fuel tick stop (i + 1) (remaining - sleep) later rest (ground arith)
      ]
    ]

module _ {W : Type 0} ⦃d : Double W⦄ where
  wait-after_wait :
      (draw : W → W → W) (stop : ℕ → Bool) (b : Backoff W) (w : Waited)
      → (let delay = pos_part (compute_delay draw b) in
          wait_loop delay b.cfg.tick stop 0 delay ≡ some w)
      → wait draw stop b ≡ some (after_wait b w)
  unfolding wait
  wait-after_wait draw stop b w e = rw (e, wait)

  attempt-after_wait :
      (b : Backoff W) (w : Waited)
      → (after_wait b w).0.attempt ≡ (if w.completed then b.attempt + 1 else b.attempt)
  unfolding after_wait
  attempt-after_wait b w = ground arith

  -- If the tick is at least a millisecond, every wait ends, whatever is drawn and whenever the flag is
  -- set. It sleeps no longer than the delay, is completed exactly if it has slept all of it, and
  -- counts an attempt exactly then.
  pub wait_lem :
      (draw : W → W → W) (stop : ℕ → Bool) (b : Backoff W)
      → 0 < b.cfg.tick
      → (b' : Backoff W) × (w : Waited) × (wait draw stop b ≡ some (b', w))
        × SleptWithin (pos_part (compute_delay draw b)) w
        × (b'.attempt ≡ (if w.completed then b.attempt + 1 else b.attempt))
  unfolding after_wait
  wait_lem draw stop b p =
      let delay = pos_part (compute_delay draw b) in
      let (w, e, within) = wait_loop-SleptWithin delay b.cfg.tick stop 0 delay p (omega arith) in
      ((after_wait b w).0, w, wait-after_wait draw stop b w e, within, attempt-after_wait b w)

  pub wait_cfg :
      (draw : W → W → W) (stop : ℕ → Bool) (b b' : Backoff W) (w : Waited)
      → wait draw stop b ≡ some (b', w)
      → b'.cfg ≡ b.cfg
  unfolding wait after_wait
  wait_cfg draw stop b b' w e = ground arith

  -- Only the flag cuts a wait short.
  pub wait-woken :
      (draw : W → W → W) (stop : ℕ → Bool) (b b' : Backoff W) (w : Waited)
      → wait draw stop b ≡ some (b', w)
      → w.completed ≡ false
      → (j : ℕ) × (stop j ≡ true)
  unfolding wait after_wait
  wait-woken draw stop b b' w e woken =
      let delay = pos_part (compute_delay draw b) in
      elim (Option-cases (wait_loop delay b.cfg.tick stop 0 delay)) [
        | inl out_of_fuel ↦ absurd (ground arith)
        | inr (slept, done) ↦
            wait_loop-woken delay b.cfg.tick stop 0 delay slept done (ground arith)
      ]

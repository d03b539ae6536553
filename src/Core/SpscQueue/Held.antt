-- ===== src/Core/SpscQueue/Held.antt =====
-- What holds of every slot of the ring of src/core/spsc_queue.hpp.
use finam_tradebot.Prelude.{
  ℕ, zero, suc, ◌≡◌, inl, inr, Bool-cases, Option-cases, some, List, [], ◌∷◌, set, get_or,
  replicate, arith, ◌==◌,
}
use finam_tradebot.Core.SpscQueue.{SpscQueue, make, push, pop, find_slot, publish}

module _ {T : Type 0} (P : T → Type 0) where
  abbrev All : List T → Type 0
  All [] = Unit
  All (x ∷ xs) = P x × All xs

  set-All : (xs : List T) (i : ℕ) (x : T) → P x → All xs → All (set xs i x)
  set-All [] i x p all = tt
  set-All (y ∷ xs) zero x p all = (p, all.1)
  set-All (y ∷ xs) (suc i) x p all = (all.0, set-All xs i x p all.1)

  get_or-All : (xs : List T) (i : ℕ) (x : T) → P x → All xs → P (get_or xs i x)
  get_or-All [] i x default all = default
  get_or-All (y ∷ xs) zero x default all = all.0
  get_or-All (y ∷ xs) (suc i) x default all = get_or-All xs i x default all.1

  -- All that the buffer holds, waiting or not.
  abbrev pub AllHeld : SpscQueue T → Type 0
  AllHeld q = P q.default × All q.buffer

  pub push-AllHeld : (x : T) (q : SpscQueue T) → P x → AllHeld q → AllHeld (push x q).0
  unfolding push publish
  push-AllHeld x q p (default, all) = elim (Option-cases (find_slot q)) [
    | inl full ↦ rw (full, push) (default, all)
    | inr (slot, room) ↦ rw (room, push) (default, set-All q.buffer slot x p all)
  ]

  pub pop-AllHeld : (q : SpscQueue T) → AllHeld q → AllHeld (pop q).0
  unfolding pop
  pop-AllHeld q held = elim (Bool-cases (q.tail == q.head)) [
    | inl e ↦ rw e held
    | inr e ↦ rw e held
  ]

  pub popped-AllHeld : (q : SpscQueue T) (x : T) → (pop q).1 ≡ some x → AllHeld q → P x
  unfolding pop
  popped-AllHeld q x popped (default, all) = elim (Bool-cases (q.tail == q.head)) [
    | inl nothing ↦ absurd (ground (arith, nothing))
    | inr left ↦
        let out : get_or q.buffer q.tail q.default ≡ x = ground (arith, left) in
        rw (← out) (get_or-All q.buffer q.tail q.default default all)
  ]

  replicate-All : (n : ℕ) (x : T) → P x → All (replicate n x)
  replicate-All zero x p = tt
  replicate-All (suc n) x p = (p, replicate-All n x p)

  pub make-AllHeld : (n : ℕ) (default : T) → P default → AllHeld (make n default)
  unfolding make
  make-AllHeld n default p = (p, replicate-All n default p)

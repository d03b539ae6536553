-- ===== src/Core/SpscQueue/Window.antt =====
-- The slots of the ring of src/core/spsc_queue.hpp between two indices.

use finam_tradebot.Prelude.{
  ℕ, zero, suc, ◌+◌, ◌-◌, ◌≤◌, ◌<◌, ◌≡◌, ◌≢◌, refl, sym, ap, ◌⊎◌, inl, inr, List, [], ◌∷◌, ◌++◌,
  ltb, leb, if◌then◌else◌, arith, length, set, get_or, get_or-set_ne,
}
use finam_tradebot.Core.SpscQueue.{SpscQueue}

pub ℕ-cases : (n : ℕ) → (n ≡ 0) ⊎ ((m : ℕ) × (n ≡ suc m))
ℕ-cases zero = inl refl
ℕ-cases (suc m) = inr (m, refl)

-- The index after `i` in a ring of `n` slots.
abbrev pub next_index : ℕ → ℕ → ℕ
next_index n i = if ltb (i + 1) n then i + 1 else 0

-- The steps from one index to another.
abbrev pub distance : ℕ → (from to : ℕ) → ℕ
distance n from to = if leb from to then to - from else n + to - from

pub distance-next :
    (n i j c : ℕ) → i < n → j < n → distance n i j ≡ suc c → distance n (next_index n i) j ≡ c
distance-next n i j c p q h = ground arith

pub next_index-bound : (n i : ℕ) → i < n → next_index n i < n
next_index-bound n i p = ground arith

pub distance-apart : (n i j c : ℕ) → i < n → suc c ≤ distance n i j → i ≢ j
distance-apart n i j c p h = λ e. absurd (ground arith)

pub distance-zero : (n i j : ℕ) → i < n → j < n → distance n i j ≡ 0 → i ≡ j
distance-zero n i j p q h = ground arith

pub distance-below :
    (n i j c : ℕ) → i < n → j < n → suc c ≤ distance n i j → c ≤ distance n (next_index n i) j
distance-below n i j c p q h = ground arith

pub distance-full : (n i j : ℕ) → i < n → j < n → next_index n i ≡ j → distance n j i ≡ n - 1
distance-full n i j p q h = ground arith

pub distance-grows :
    (n i j : ℕ)
    → i < n
    → j < n
    → next_index n i ≢ j
    → distance n j (next_index n i) ≡ suc (distance n j i)
distance-grows n i j p q h = ground arith

pub distance-room : (n i j : ℕ) → i < n → j < n → next_index n i ≢ j → distance n j i < n - 1
distance-room n i j p q h = ground arith

pub at_most : (n : ℕ) → n ≤ n
at_most n = omega arith

module _ {T : Type 0} where
  -- `c` items from the index `i` on.
  abbrev pub window : List T → ℕ → T → (i c : ℕ) → List T
  window buf n d i zero = []
  window buf n d i (suc c) = get_or buf i d ∷ window buf n d (next_index n i) c

  pub length-window : (buf : List T) (n : ℕ) (d : T) (i c : ℕ) → length (window buf n d i c) ≡ c
  length-window buf n d i zero = refl
  length-window buf n d i (suc c) = ap suc (length-window buf n d (next_index n i) c)

  pub window-set :
      (buf : List T) (n : ℕ) (d v : T) (i j c : ℕ)
      → i < n
      → j < n
      → c ≤ distance n i j
      → window (set buf j v) n d i c ≡ window buf n d i c
  window-set buf n d v i j zero p q h = refl
  window-set buf n d v i j (suc c) p q h = rw (
    get_or-set_ne buf {i = j} {j = i} v d (λ e. distance-apart n i j c p h (sym e)),
    window-set buf n d v (next_index n i) j c (next_index-bound n i p) q
        (distance-below n i j c p q h),
  )

  pub window-last :
      (buf : List T) (n : ℕ) (d : T) (i j c : ℕ)
      → i < n
      → j < n
      → distance n i j ≡ c
      → window buf n d i (suc c) ≡ window buf n d i c ++ (get_or buf j d ∷ [])
  window-last buf n d i j zero p q h = rw (distance-zero n i j p q h)
  window-last buf n d i j (suc c) p q h =
      ap (λ rest. get_or buf i d ∷ rest)
        (window-last buf n d (next_index n i) j c (next_index-bound n i p) q
          (distance-next n i j c p q h))

  -- The items that wait, the oldest first.
  abbrev pub contents : SpscQueue T → List T
  contents q = window q.buffer q.size q.default q.tail (distance q.size q.tail q.head)

-- ===== src/Prelude/Bits.antt =====
-- The mask of a power of two, as `x & (2^k - 1)` in the sources, for the indices of a ring.
use Prim.Native.Nat.{min, bit_and, digits, bit_and-bitwise}
use finam_tradebot.Prelude.{
  ℕ, zero, suc, ◌+◌, ◌-◌, ◌/◌, ◌^◌, ◌≤◌, ◌<◌, ◌≡◌, refl, arith, ltb, if◌then◌else◌,
}

abbrev lowest_first : ℕ → ℕ → ℕ → ℕ
lowest_first n a b = digits (λ b. zero) min n a b

pub pow-positive : (k : ℕ) → 0 < 2 ^ k
pow-positive zero = omega arith
pow-positive (suc k) = omega (arith, pow-positive k)

keeps : (n k a : ℕ) → a ≤ n → a < 2 ^ k → lowest_first n a (2 ^ k - 1) ≡ a
keeps zero k a fuel lt = omega arith
keeps (suc n) k zero fuel lt = refl
keeps (suc n) zero (suc a) fuel lt = absurd (omega arith)
keeps (suc n) (suc k) (suc a) fuel lt =
    let half : (2 ^ suc k - 1) / 2 ≡ 2 ^ k - 1 = omega (arith, pow-positive k) in
    rw half (omega (arith, pow-positive k, keeps n k (suc a / 2) (omega arith) (omega arith)))

none_left : (n b : ℕ) → lowest_first n 0 b ≡ 0
none_left zero b = refl
none_left (suc n) b = refl

drops : (n k a : ℕ) → a ≤ n → a ≡ 2 ^ k → lowest_first n a (2 ^ k - 1) ≡ 0
drops zero k a fuel e = absurd (omega (arith, pow-positive k))
drops (suc n) k zero fuel e = refl
drops (suc n) zero (suc zero) fuel e = omega (arith, none_left n 0)
drops (suc n) zero (suc (suc a)) fuel e = absurd (omega arith)
drops (suc n) (suc k) (suc a) fuel e =
    let half : (2 ^ suc k - 1) / 2 ≡ 2 ^ k - 1 = omega (arith, pow-positive k) in
    rw half (omega (arith, pow-positive k, drops n k (suc a / 2) (omega arith) (omega arith)))

-- The index after `i` in a ring of 2^k slots.
pub mask_next :
    (k i : ℕ) → i < 2 ^ k → bit_and (i + 1) (2 ^ k - 1) ≡ (if ltb (i + 1) (2 ^ k) then i + 1 else 0)
mask_next k i lt =
    ground
      (arith, bit_and-bitwise (i + 1) (2 ^ k - 1), keeps (i + 1) k (i + 1), drops (i + 1) k (i + 1))

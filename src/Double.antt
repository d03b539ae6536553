-- ===== src/Double.antt =====
-- `double` as an abstract type with the operations that the sources use. Nothing is assumed of an
-- operation unless a theorem takes it as a law below; the comparisons may fail on both sides, as
-- they do at NaN.
pub mod Fixed
use finam_tradebot.Prelude.{ℕ, ◌≡◌, Bool, true, false, Option, if◌then◌else◌}
use finam_tradebot.Prelude.Int.{ℤ, pos}
use finam_tradebot.Prelude.Text.{Text}

pub record Double (W : Type 0) : Type 0 where
  -- The literal m * 10^-e.
  pub literal : ℤ → ℕ → W
  -- `static_cast<double>` of an integer, and `static_cast<int64_t>` of a double.
  pub of_ℤ : ℤ → W
  pub truncate : W → ℤ
  pub add : W → W → W
  pub sub : W → W → W
  pub mul : W → W → W
  pub div : W → W → W
  pub neg : W → W
  pub lt : W → W → Bool
  pub le : W → W → Bool
  pub eq : W → W → Bool
  -- `std::round`, `std::exp` and `std::pow`.
  pub round : W → W
  pub exp : W → W
  pub pow : W → W → W
  -- `std::stod`, with `none` for an exception, and `snprintf` with "%.10g".
  pub stod : Text → Option W
  pub print : W → Text
  -- `std::to_string`.
  pub to_text : W → Text
  -- `std::numeric_limits<double>::lowest()` and `::max()`.
  pub lowest : W
  pub highest : W

module _ {W : Type 0} ⦃d : Double W⦄ where
  infixl 65 ◌⊕◌ ◌⊖◌
  infixl 70 ◌⊗◌ ◌⊘◌
  infix 50 ◌≺◌ ◌≼◌
  abbrev pub ◌⊕◌ : W → W → W
  ◌⊕◌ = d.add

  abbrev pub ◌⊖◌ : W → W → W
  ◌⊖◌ = d.sub

  abbrev pub ◌⊗◌ : W → W → W
  ◌⊗◌ = d.mul

  abbrev pub ◌⊘◌ : W → W → W
  ◌⊘◌ = d.div

  abbrev pub ◌≺◌ : W → W → Bool
  ◌≺◌ = d.lt

  abbrev pub ◌≼◌ : W → W → Bool
  ◌≼◌ = d.le

  abbrev pub nought : W
  nought = d.literal (pos 0) 0

  abbrev pub whole : ℕ → W
  whole n = d.literal (pos n) 0

  -- The literal n * 10^-e.
  abbrev pub decimal_lit : ℕ → ℕ → W
  decimal_lit n e = d.literal (pos n) e

  -- `std::max(a, b)` and `std::min(a, b)`.
  abbrev pub max : W → W → W
  max a b = if a ≺ b then b else a

  abbrev pub min : W → W → W
  min a b = if b ≺ a then b else a

-- What IEEE 754 says of the comparisons, NaN included.
pub record IsOrdered (W : Type 0) ⦃d : Double W⦄ : Type 0 where
  pub lt_irrefl : (x : W) → d.lt x x ≡ false
  pub lt_trans : (x y z : W) → d.lt x y ≡ true → d.lt y z ≡ true → d.lt x z ≡ true
  pub lt_asym : (x y : W) → d.lt x y ≡ true → d.lt y x ≡ false

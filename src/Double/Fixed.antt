-- ===== src/Double/Fixed.antt =====
-- Numbers with nine decimal places in an integer: a type on which the operations on doubles run,
-- for tests and for concrete instances of theorems.
use finam_tradebot.Prelude.{ℕ, ◌+◌, ◌*◌, ◌/◌, ◌^◌, Bool, arith, leb, ◌==◌}
use finam_tradebot.Prelude.Int.{ℤ, pos, negsuc, pos_part, neg_part, sub_ℕ, ltb_ℤ}
use finam_tradebot.Prelude.Text.{stoi, decimal}
use mathlib.Core.Option
use finam_tradebot.Double.{Double, IsOrdered}

abbrev pub Fixed : Type 0
Fixed = ℤ

abbrev pub unit : ℕ
unit = 10 ^ 9

-- Division of an integer by a number, towards zero.
abbrev pub quotient : ℤ → ℕ → ℤ
quotient (pos n) k = pos (n / k)
quotient (negsuc n) k = sub_ℕ 0 ((n + 1) / k)

abbrev divide : ℤ → ℤ → ℤ
divide a (pos k) = quotient a k
divide a (negsuc k) = quotient (sub_ℕ (neg_part a) (pos_part a)) (k + 1)

abbrev times : ℤ → ℤ → ℤ
times a b =
    sub_ℕ (pos_part a * pos_part b + neg_part a * neg_part b)
      (pos_part a * neg_part b + neg_part a * pos_part b)

abbrev leb_ℤ : ℤ → ℤ → Bool
leb_ℤ a b = leb (pos_part a + neg_part b) (pos_part b + neg_part a)

abbrev eqb_ℤ : ℤ → ℤ → Bool
eqb_ℤ a b = pos_part a + neg_part b == pos_part b + neg_part a

instance abbrev pub fixed_double : Double Fixed
fixed_double = record {
  literal = λ m e. quotient (times m (pos unit)) (10 ^ e);
  of_ℤ = λ m. times m (pos unit);
  truncate = λ x. quotient x unit;
  add = λ a b. sub_ℕ (pos_part a + pos_part b) (neg_part a + neg_part b);
  sub = λ a b. sub_ℕ (pos_part a + neg_part b) (neg_part a + pos_part b);
  mul = λ a b. quotient (times a b) unit;
  div = λ a b. divide (times a (pos unit)) b;
  neg = λ a. sub_ℕ (neg_part a) (pos_part a);
  lt = ltb_ℤ;
  le = leb_ℤ;
  eq = eqb_ℤ;
  round = λ x. x;
  exp = λ x. pos unit;
  pow = λ x y. pos unit;
  stod = λ s. Option.map (λ m. times m (pos unit)) (stoi s);
  print = λ x. decimal (pos_part x / unit);
  to_text = λ x. decimal (pos_part x / unit);
  lowest = sub_ℕ 0 (10 ^ 30);
  highest = pos (10 ^ 30);
}

pub Fixed-IsOrdered : IsOrdered Fixed
Fixed-IsOrdered = ground arith

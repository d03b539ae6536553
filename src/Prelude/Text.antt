-- ===== src/Prelude/Text.antt =====
-- `std::string` as the list of its bytes, with the operations that the sources call on it.
use Prim.Native.Char.{code}
use Prim.Native.String.{String}
use mathlib.Core.Option
use finam_tradebot.Prelude.{
  ℕ, zero, suc, ◌+◌, ◌-◌, ◌*◌, ◌/◌, ◌%◌, ◌^◌, ◌≡◌, refl, ◌↔◌, Bool, true, false, ◌&&◌, ◌||◌, Option,
  none, some, List, [], ◌∷◌, arith, ltb, leb, ◌==◌, if◌then◌else◌,
}
use finam_tradebot.Prelude.Int.{ℤ, pos, sub_ℕ}

abbrev pub Text : Type 0
Text = List ℕ

-- A string literal. It stays folded in proofs, and a test unfolds it.
unfoldable pub text : String → Text
text String.[] = []
text (String.◌∷◌ c s) = code c ∷ text s

-- `operator==`.
unfoldable pub text_eq : Text → Text → Bool
text_eq [] [] = true
text_eq [] (y ∷ ys) = false
text_eq (x ∷ xs) [] = false
text_eq (x ∷ xs) (y ∷ ys) = x == y && text_eq xs ys

pub text_eq_iff : (s t : Text) → (text_eq s t ≡ true) ↔ (s ≡ t)
unfolding text_eq
text_eq_iff [] [] = (λ _. refl, λ _. refl)
text_eq_iff [] (y ∷ ys) = ground arith
text_eq_iff (x ∷ xs) [] = ground arith
text_eq_iff (x ∷ xs) (y ∷ ys) = ground (arith, text_eq_iff xs ys)

pub text_eq_refl : (s : Text) → text_eq s s ≡ true
text_eq_refl s = (text_eq_iff s s).1 refl

-- `empty()`.
abbrev pub is_empty : Text → Bool
is_empty [] = true
is_empty (c ∷ s) = false

-- `std::to_string` of a number that is not negative, on fuel.
decimal_from : ℕ → ℕ → Text → Text
decimal_from zero n rest = rest
decimal_from (suc fuel) n rest =
    let more = decimal_from fuel (n / 10) ((n % 10 + b'0') ∷ rest) in
    if ltb n 10 then (n + b'0') ∷ rest else more

unfoldable pub decimal : ℕ → Text
unfolding decimal_from
decimal n = decimal_from (suc n) n []

-- A single digit prints as one byte.
pub decimal_digit : (n : ℕ) → ltb n 10 ≡ true → decimal n ≡ (n + b'0') ∷ []
unfolding decimal
decimal_digit n h = rw h

-- `back()` and the byte before it.
abbrev pub last_byte : Text → ℕ
last_byte [] = 0
last_byte (c ∷ []) = c
last_byte (c ∷ e ∷ s) = last_byte (e ∷ s)

abbrev pub byte_before_last : Text → ℕ
byte_before_last [] = 0
byte_before_last (c ∷ []) = 0
byte_before_last (c ∷ e ∷ []) = c
byte_before_last (c ∷ e ∷ f ∷ s) = byte_before_last (e ∷ f ∷ s)

-- `find(c)`; `none` is `npos`.
unfoldable pub find : ℕ → Text → Option ℕ
find c [] = none
find c (e ∷ s) = if e == c then some 0 else Option.map suc (find c s)

-- `std::stoi` and `std::stol`: blanks, a sign, digits; `none` is an exception.
is_blank : ℕ → Bool
is_blank c = c == b' ' || (leb 9 c && leb c 13)

abbrev is_digit : ℕ → Bool
is_digit c = leb b'0' c && leb c b'9'

digits_value : ℕ → Text → ℕ
digits_value acc [] = acc
digits_value acc (c ∷ s) = if is_digit c then digits_value (acc * 10 + (c - b'0')) s else acc

unsigned : Text → Option ℕ
unsigned [] = none
unsigned (c ∷ s) = if is_digit c then some (digits_value 0 (c ∷ s)) else none

-- `none` too if the value does not fit: -bound to bound - 1.
with_sign : ℕ → Bool → Option ℕ → Option ℤ
with_sign bound negative none = none
with_sign bound true (some n) = if leb n bound then some (sub_ℕ 0 n) else none
with_sign bound false (some n) = if ltb n bound then some (pos n) else none

signed_value : ℕ → Text → Option ℤ
signed_value bound [] = none
signed_value bound (c ∷ s) =
    if c == b'-'
    then with_sign bound true (unsigned s)
    else (if c == b'+'
        then with_sign bound false (unsigned s)
        else with_sign bound false (unsigned (c ∷ s)))

skip_blanks : Text → Text
skip_blanks [] = []
skip_blanks (c ∷ s) = if is_blank c then skip_blanks s else c ∷ s

unfoldable pub stoi : Text → Option ℤ
unfolding skip_blanks signed_value with_sign unsigned digits_value is_blank
stoi s = signed_value (2 ^ 31) (skip_blanks s)

unfoldable pub stol : Text → Option ℤ
unfolding skip_blanks signed_value with_sign unsigned digits_value is_blank
stol s = signed_value (2 ^ 63) (skip_blanks s)

-- `rfind(c)`.
unfoldable pub rfind : ℕ → Text → Option ℕ
rfind c [] = none
rfind c (e ∷ s) = elim (rfind c s) [
  | some i ↦ some (suc i)
  | none ↦ if e == c then some 0 else none
]

-- `find(t) != npos`.
unfoldable pub starts_with : Text → Text → Bool
starts_with [] s = true
starts_with (c ∷ t) [] = false
starts_with (c ∷ t) (e ∷ s) = c == e && starts_with t s

unfoldable pub contains : Text → Text → Bool
contains t [] = starts_with t []
contains t (e ∷ s) = starts_with t (e ∷ s) || contains t s

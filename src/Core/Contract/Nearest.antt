-- ===== src/Core/Contract/Nearest.antt =====
-- What the functions of src/core/contract.hpp promise: the third Friday, the choice of the nearest
-- contract, and its code read back.
use finam_tradebot.Prelude.{
  ℕ, ◌+◌, ◌*◌, ◌%◌, ◌≤◌, ◌<◌, ◌≡◌, ◌⊎◌, refl, true, false, [], ◌∷◌, ◌++◌, ltb, ◌==◌, length, arith,
}
use finam_tradebot.Prelude.Text.{Text, text, decimal_digit, last_byte, byte_before_last}
use finam_tradebot.Core.Types.{Timestamp}
use finam_tradebot.Core.Calendar.{Date, days_of, weekday, today}
use finam_tradebot.Core.Contract.{
  third_friday, is_quarterly, next_quarterly_month, Expiry, next_quarterly, quarter_letter,
  current_expiry, in_rollover, nearest_expiry, contract_code, nearest_contract, letter_month,
  year_of_byte, expiry_day,
}

-- The third Friday of a month is a Friday, and lies between the 15th and the 21st.
pub third_friday_lem :
    (y m : ℕ)
    → (weekday (days_of (record { year = y; month = m; day = third_friday y m })) ≡ 5)
      × (15 ≤ third_friday y m)
      × (third_friday y m ≤ 21)
unfolding third_friday weekday days_of
third_friday_lem y m = ground arith

nearest_expiry-is_quarterly :
    (r : ℕ) (date : Date) → is_quarterly (nearest_expiry r date).month ≡ true
unfolding nearest_expiry in_rollover current_expiry next_quarterly is_quarterly next_quarterly_month
nearest_expiry-is_quarterly r date = ground arith

-- The months from the year 0 on.
abbrev pub month_number : ℕ → ℕ → ℕ
month_number year month = 12 * year + month

-- The contract can be held on: it expires in a later month, or in this one and its third Friday is
-- more than `r` days ahead.
abbrev pub IsAhead : ℕ → Date → ℕ → ℕ → Type 0
IsAhead r date year month =
    (month_number date.year date.month < month_number year month)
    ⊎ ((year ≡ date.year) × (month ≡ date.month) × (date.day + r < third_friday year month))

nearest_expiry-IsAhead :
    (r : ℕ) (date : Date)
    → 1 ≤ date.month
    → date.month ≤ 12
    → let e = nearest_expiry r date in IsAhead r date e.year e.month
unfolding nearest_expiry in_rollover current_expiry next_quarterly is_quarterly next_quarterly_month
nearest_expiry-IsAhead r date lo hi = ground arith

nearest_expiry-first :
    (r : ℕ) (date : Date)
    → 1 ≤ date.month
    → date.month ≤ 12
    → (year month : ℕ) → is_quarterly month ≡ true
    → IsAhead r date year month
    → let e = nearest_expiry r date in month_number e.year e.month ≤ month_number year month
unfolding nearest_expiry in_rollover current_expiry next_quarterly is_quarterly next_quarterly_month
nearest_expiry-first r date lo hi year month q ahead = ground arith

-- In any month of the calendar the contract that is chosen is the first of the quarterly months whose
-- contract can be held on: one of a later month, or the one of this month as long as its third
-- Friday is more than `r` days ahead.
pub nearest_expiry_lem :
    (r : ℕ) (date : Date)
    → 1 ≤ date.month
    → date.month ≤ 12
    → let e = nearest_expiry r date in
      (is_quarterly e.month ≡ true)
      × IsAhead r date e.year e.month
      × ((year month : ℕ)
          → is_quarterly month ≡ true
          → IsAhead r date year month
          → month_number e.year e.month ≤ month_number year month)
nearest_expiry_lem r date lo hi = (
  nearest_expiry-is_quarterly r date,
  nearest_expiry-IsAhead r date lo hi,
  nearest_expiry-first r date lo hi,
)

last_byte-append : (s : Text) (a b : ℕ) → last_byte (s ++ (a ∷ b ∷ [])) ≡ b
last_byte-append [] a b = refl
last_byte-append (c ∷ []) a b = refl
last_byte-append (c ∷ e ∷ s) a b = last_byte-append (e ∷ s) a b

byte_before_last-append : (s : Text) (a b : ℕ) → byte_before_last (s ++ (a ∷ b ∷ [])) ≡ a
byte_before_last-append [] a b = refl
byte_before_last-append (c ∷ []) a b = refl
byte_before_last-append (c ∷ e ∷ []) a b = refl
byte_before_last-append (c ∷ e ∷ f ∷ s) a b = byte_before_last-append (e ∷ f ∷ s) a b

length-append : (s : Text) (a b : ℕ) → ltb (length (s ++ (a ∷ b ∷ []))) 2 ≡ false
length-append [] a b = refl
length-append (c ∷ s) a b = ground (arith, length-append s a b)

letter_month-quarter_letter : (m : ℕ) → is_quarterly m ≡ true → letter_month (quarter_letter m) ≡ m
unfolding letter_month quarter_letter is_quarterly
letter_month-quarter_letter m h = ground arith

-- The bytes of a code: the ticker, a letter and one digit.
pub contract_code_lem :
    (ticker : Text) (e : Expiry)
    → contract_code ticker e ≡ ticker ++ (quarter_letter e.month ∷ (e.year % 10 + b'0') ∷ [])
unfolding contract_code
contract_code_lem ticker e = rw (decimal_digit (e.year % 10) (ground arith))

year_of_byte_lem : (y : ℕ) → 2020 ≤ y → y ≤ 2029 → year_of_byte (y % 10 + b'0') ≡ y
unfolding year_of_byte
year_of_byte_lem y lo hi = ground arith

is_quarterly-positive : (m : ℕ) → is_quarterly m ≡ true → (m == 0) ≡ false
unfolding is_quarterly
is_quarterly-positive m h = ground arith

expiry_day-contract_code :
    (ticker board : Text) (e : Expiry)
    → is_quarterly e.month ≡ true
    → 2020 ≤ e.year
    → e.year ≤ 2029
    → expiry_day (record { security_code = contract_code ticker e; security_board = board })
      ≡ third_friday e.year e.month
unfolding expiry_day
expiry_day-contract_code ticker board e q lo hi = rw (
  contract_code_lem ticker e,
  length-append,
  byte_before_last-append,
  last_byte-append,
  letter_month-quarter_letter e.month q,
  year_of_byte_lem e.year lo hi,
  is_quarterly-positive e.month q,
)

-- The day of expiry that is read from the code of the nearest contract is the third Friday of the
-- month that was chosen, if its year is from 2020 to 2029.
pub expiry_day-nearest_contract :
    (ticker : Text) (r : ℕ) (now : Timestamp)
    → let e = nearest_expiry r (today now) in
      2020 ≤ e.year
      → e.year ≤ 2029
      → expiry_day (nearest_contract ticker r now) ≡ third_friday e.year e.month
unfolding nearest_contract
expiry_day-nearest_contract ticker r now lo hi =
    let e = nearest_expiry r (today now) in
    expiry_day-contract_code ticker (text "RTSX") e (nearest_expiry-is_quarterly r (today now)) lo
      hi

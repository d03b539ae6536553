-- ===== src/Core/Contract.antt =====
-- src/core/contract.hpp: the nearest quarterly futures contract, its code and its expiry day.
pub mod Nearest
use finam_tradebot.Prelude.{
  ℕ, ◌+◌, ◌-◌, ◌%◌, Bool, ◌&&◌, ◌||◌, ◌∷◌, ◌++◌, ltb, leb, ◌==◌, if◌then◌else◌, length,
}
use finam_tradebot.Prelude.Text.{Text, text, decimal, last_byte, byte_before_last}
use finam_tradebot.Core.Types.{Timestamp, Symbol}
use finam_tradebot.Core.Calendar.{Date, days_of, weekday, today}

unfoldable pub third_friday : ℕ → ℕ → ℕ
third_friday year month =
    let wdi = weekday (days_of (record { year = year; month = month; day = 1 })) in
    let days_to_first_fri = if leb wdi 5 then 5 - wdi else 12 - wdi in 1 + days_to_first_fri + 14

unfoldable pub is_quarterly : ℕ → Bool
is_quarterly month = month == 3 || (month == 6 || (month == 9 || month == 12))

unfoldable pub next_quarterly_month : ℕ → ℕ
next_quarterly_month month =
    if ltb month 3
    then 3
    else (if ltb month 6 then 6 else (if ltb month 9 then 9 else (if ltb month 12 then 12 else 3)))

-- A month and a year.
abbrev pub Expiry : Type 0
Expiry = record { month : ℕ; year : ℕ }

unfoldable pub next_quarterly : Expiry → Expiry
next_quarterly e =
    let next = next_quarterly_month e.month in
    record { month = next; year = if leb next e.month then e.year + 1 else e.year }

unfoldable pub quarter_letter : ℕ → ℕ
quarter_letter month =
    if month == 3
    then b'H'
    else (if month == 6
        then b'M'
        else (if month == 9 then b'U' else (if month == 12 then b'Z' else b'X')))

-- The current month, if it is a quarterly one, or the next quarterly month.
unfoldable pub current_expiry : Date → Expiry
current_expiry date =
    let now : Expiry = record { month = date.month; year = date.year } in
    if is_quarterly date.month then now else next_quarterly now

-- `cur_day >= tf - rollover_days` in the month of expiry, and false in every other month, before it or
-- after it, as the test of `cur_year` and `cur_month` has it; `rollover_days` is not negative.
unfoldable pub in_rollover : ℕ → Date → Expiry → Bool
in_rollover rollover_days date e =
    (date.year == e.year)
    && ((date.month == e.month) && leb (third_friday e.year e.month) (date.day + rollover_days))

unfoldable pub nearest_expiry : ℕ → Date → Expiry
nearest_expiry rollover_days date =
    let e = current_expiry date in if in_rollover rollover_days date e then next_quarterly e else e

unfoldable pub contract_code : Text → Expiry → Text
contract_code ticker e = ticker ++ (quarter_letter e.month ∷ decimal (e.year % 10))

unfoldable pub nearest_contract : Text → ℕ → Timestamp → Symbol
nearest_contract ticker rollover_days now = record {
  security_code = contract_code ticker (nearest_expiry rollover_days (today now));
  security_board = text "RTSX";
}

-- 0 for a letter of no quarter.
unfoldable pub letter_month : ℕ → ℕ
letter_month letter =
    if letter == b'H'
    then 3
    else (if letter == b'M'
        then 6
        else (if letter == b'U' then 9 else (if letter == b'Z' then 12 else 0)))

-- `2020 + (code.back() - '0')`, where a `char` above 127 is negative.
unfoldable pub year_of_byte : ℕ → ℕ
year_of_byte c = if ltb c 128 then 2020 + c - b'0' else 2020 + c - 256 - b'0'

unfoldable pub expiry_day : Symbol → ℕ
expiry_day sym =
    let code = sym.security_code in
    let month = letter_month (byte_before_last code) in
    if ltb (length code) 2
    then 0
    else (if month == 0 then 0 else third_friday (year_of_byte (last_byte code)) month)

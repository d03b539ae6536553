-- ===== src/Tests/Contracts.antt =====
-- The contract calendar at dates of the unit tests.
use finam_tradebot.Prelude.{ℕ, ◌+◌, ◌*◌, ◌≤◌, ◌≡◌, refl, true, arith}
use finam_tradebot.Prelude.Text.{text, find, decimal}
use finam_tradebot.Core.Types.{ok, Timestamp, second}
use finam_tradebot.Core.Calendar.{Date, days_of, weekday, today, date_of}
use finam_tradebot.Core.Contract.{
  third_friday, is_quarterly, in_rollover, nearest_expiry, nearest_contract, expiry_day,
  contract_code, quarter_letter, current_expiry, next_quarterly, next_quarterly_month,
}
use finam_tradebot.Core.Contract.Nearest.{
  IsAhead, month_number, nearest_expiry_lem, expiry_day-nearest_contract,
}
use finam_tradebot.Double.Fixed.{fixed_double}
use finam_tradebot.Risk.RiskManager.{check_expiry}
use finam_tradebot.Risk.RiskManager.Expiry.{check_expiry-nearest_contract}
use finam_tradebot.Tests.Fixtures.{risk}

-- Inside the rollover window of March 2026.
abbrev march : Date
march = record { year = 2026; month = 3; day = 16 }

-- Noon of that day.
abbrev noon : Timestamp
noon = 1_773_662_400 * second

third_friday_march : third_friday 2026 3 ≡ 20
unfolding third_friday weekday days_of
third_friday_march = refl

third_friday_june : third_friday 2026 6 ≡ 19
unfolding third_friday weekday days_of
third_friday_june = refl

today-march : today noon ≡ march
unfolding today date_of
today-march = refl

-- The second contract of the year, written SiM6.
june_contract : (nearest_contract (text "Si") 5 noon).security_code ≡ text "SiM6"
unfolding nearest_contract text contract_code quarter_letter decimal nearest_expiry in_rollover
    today date_of current_expiry is_quarterly third_friday weekday days_of next_quarterly
    next_quarterly_month
june_contract = refl

nearest_expiry_lem_example :
    let e = nearest_expiry 5 march in
    (is_quarterly e.month ≡ true)
    × IsAhead 5 march e.year e.month
    × ((year month : ℕ)
        → is_quarterly month ≡ true
        → IsAhead 5 march year month
        → month_number e.year e.month ≤ month_number year month)
nearest_expiry_lem_example = nearest_expiry_lem 5 march (omega arith) (omega arith)

year_march : (nearest_expiry 5 (today noon)).year ≡ 2026
unfolding today nearest_expiry in_rollover date_of current_expiry is_quarterly third_friday weekday
    days_of next_quarterly next_quarterly_month
year_march = refl

expiry_day-nearest_contract_example :
    expiry_day (nearest_contract (text "Si") 5 noon)
    ≡ third_friday (nearest_expiry 5 (today noon)).year (nearest_expiry 5 (today noon)).month
expiry_day-nearest_contract_example =
    expiry_day-nearest_contract (text "Si") 5 noon (omega (arith, year_march))
      (omega (arith, year_march))

-- Asked a year later.
check_expiry-nearest_contract_example :
    check_expiry (nearest_contract (text "Si") 5 noon) (noon + 31_536_000 * second) risk ≡ ok tt
unfolding text find
check_expiry-nearest_contract_example =
    check_expiry-nearest_contract (text "Si") 5 noon (noon + 31_536_000 * second) risk refl

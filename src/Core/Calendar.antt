-- ===== src/Core/Calendar.antt =====
-- The civil calendar of C++20 <chrono>: the proleptic Gregorian calendar, in days since 0000-03-01.
use finam_tradebot.Prelude.{ℕ, ◌+◌, ◌-◌, ◌*◌, ◌/◌, ◌%◌, leb, ltb, if◌then◌else◌}
use finam_tradebot.Core.Types.{Timestamp, second}

pub record Date : Type 0 where
  pub year : ℕ
  pub month : ℕ
  pub day : ℕ

-- Days from 0000-03-01 to the epoch 1970-01-01.
abbrev pub epoch_days : ℕ
epoch_days = 719_468

-- Days from 1 March to the first of a month, the months counted from March.
abbrev pub month_start : ℕ → ℕ
month_start mp = (153 * mp + 2) / 5

-- `sys_days{year_month_day{y, m, d}}`, for y ≥ 1.
unfoldable pub days_of : Date → ℕ
days_of date =
    let y = if leb date.month 2 then date.year - 1 else date.year in
    let mp = if leb date.month 2 then date.month + 9 else date.month - 3 in
    365 * y + y / 4 - y / 100 + y / 400 + month_start mp + date.day - 1

-- `weekday{sys_day}.c_encoding()`: 0 is Sunday.
unfoldable pub weekday : ℕ → ℕ
weekday z = (z + 3) % 7

-- `year_month_day{dp}`.
unfoldable pub date_of : ℕ → Date
date_of z =
    let era = z / 146097 in
    let doe = z % 146097 in
    let yoe = (doe + doe / 36524 - doe / 1460 - doe / 146096) / 365 in
    let doy = doe + yoe / 100 - (365 * yoe + yoe / 4) in
    let mp = (5 * doy + 2) / 153 in
    let month = if ltb mp 10 then mp + 3 else mp - 9 in
    record {
      year = if leb month 2 then yoe + era * 400 + 1 else yoe + era * 400;
      month = month;
      day = doy + 1 - month_start mp;
    }

-- The date of a time point, in UTC.
unfoldable pub today : Timestamp → Date
today now = date_of (now / second / 86400 + epoch_days)

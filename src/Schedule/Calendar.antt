-- ===== src/Schedule/Calendar.antt =====
-- The calendar of `Date.UTC`. Instants are milliseconds from two days before the year 0, so that a
-- day less than any date of four digits is still a number.
pub mod Laws
use ai_email_broadcast_hw.Base.{
  ℕ, suc, ◌+◌, ◌-◌, ◌*◌, ◌/◌, ◌%◌, Bool, true, false, not, ◌&&◌, ◌||◌, ltb, leb, ◌==◌,
  if◌then◌else◌,
}

-- What a clock on a wall reads.
pub record WallClock : Type 0 where
  pub year : ℕ
  pub month : ℕ
  pub day : ℕ
  pub hour : ℕ
  pub minute : ℕ
  pub second : ℕ

unfoldable pub is_leap : ℕ → Bool
is_leap y = y % 4 == 0 && (not (y % 100 == 0) || y % 400 == 0)

unfoldable pub length_of_month : ℕ → ℕ → ℕ
unfolding is_leap
length_of_month y m =
    if m == 2
    then (if is_leap y then 29 else 28)
    else if m == 4 || (m == 6 || (m == 9 || m == 11))
    then 30
    else 31

unfoldable pub days_before_year : ℕ → ℕ
days_before_year y = y * 365 + (y + 3) / 4 + (y + 399) / 400 - (y + 99) / 100

-- The days of the months before, of the year's twelve.
unfoldable pub days_before_month : ℕ → ℕ → ℕ
unfolding is_leap
days_before_month y m =
    let leap = if is_leap y then 1 else 0 in
    if leb m 1
    then 0
    else if m == 2
    then 31
    else if m == 3
    then 59 + leap
    else if m == 4
    then 90 + leap
    else if m == 5
    then 120 + leap
    else if m == 6
    then 151 + leap
    else if m == 7
    then 181 + leap
    else if m == 8
    then 212 + leap
    else if m == 9
    then 243 + leap
    else if m == 10
    then 273 + leap
    else if m == 11
    then 304 + leap
    else 334 + leap

-- `Date.UTC` takes a year below 100 for one of the twentieth century.
unfoldable pub utc_year : ℕ → ℕ
utc_year y = if ltb y 100 then 1900 + y else y

-- The days before a date, for a month from 1 to 12 and a day from 1.
unfoldable pub day_number : ℕ → ℕ → ℕ → ℕ
unfolding days_before_year days_before_month
day_number y m d = days_before_year y + days_before_month y m + (d - 1)

abbrev pub seconds_of : ℕ → ℕ → ℕ → ℕ → ℕ
seconds_of days h mi s = days * 86400 + h * 3600 + mi * 60 + s

-- `Date.UTC(year, month - 1, day, hour, minute, second)`.
unfoldable pub date_utc : WallClock → ℕ
unfolding day_number utc_year
date_utc w =
    seconds_of (2 + day_number (utc_year w.year) w.month w.day) w.hour w.minute w.second * 1000

-- `new Date(Date.UTC(year, month, 0)).getUTCDate()`, for a month from 1 to 12.
unfoldable pub days_in_month : ℕ → ℕ → ℕ
unfolding length_of_month utc_year
days_in_month y m = length_of_month (utc_year y) m

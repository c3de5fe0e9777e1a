-- ===== src/Schedule/Tests.antt =====
-- A zone that puts its clocks back from 3:00 to 2:00 on the 25th of October 2026, as known from the
-- 2nd to the 29th: the time 2:30 of the 25th occurs twice.
use ai_email_broadcast_hw.Base.{
  ℕ, ◌+◌, ◌-◌, ◌*◌, ◌/◌, ◌%◌, ◌≡◌, refl, ◌↔◌, inr, true, Option, none, some, [], ◌∷◌, Text, arith,
  ltb, if◌then◌else◌, mem_id,
}
use ai_email_broadcast_hw.Base.Sort.{sort}
use ai_email_broadcast_hw.Schedule.{ErrorCode, Field, Occurrence, ok, failed}
use ai_email_broadcast_hw.Schedule.Calendar.{WallClock, date_utc, days_in_month}
use ai_email_broadcast_hw.Schedule.Calendar.Laws.{IsCivil}
use ai_email_broadcast_hw.Schedule.Digits.{read_date, read_time, print_date, print_time}
use ai_email_broadcast_hw.Schedule.Iso.{parse_scheduled_at, to_iso_string}
use ai_email_broadcast_hw.Schedule.Iso.Laws.{
  IsChecked, parse_scheduled_at-IsChecked, parse_scheduled_at-to_iso_string,
}
use ai_email_broadcast_hw.Schedule.Zone.{instants_reading, day_ms, minute_ms, reading_at}
use ai_email_broadcast_hw.Schedule.Zone.Readings.{IsZone, IsAsked, instants_reading_iff}
use ai_email_broadcast_hw.Schedule.Form.{to_scheduled_at, schedule_fields_for}
use ai_email_broadcast_hw.Schedule.Form.Answers.{IsAnswer, to_scheduled_at-IsAnswer}
use ai_email_broadcast_hw.Schedule.Form.RoundTrip.{to_scheduled_at-schedule_fields_for}

-- The first of October, in UTC.
abbrev october : ℕ
october = 63958204800000

abbrev change : ℕ
change = october + 24 * day_ms + 3600000

abbrev off : ℕ → ℕ
off at = if ltb at change then 1560 else 1500

-- The seconds of the month, on the wall.
abbrev elapsed : ℕ → ℕ
elapsed at = (at + off at * minute_ms - day_ms - october) / 1000

abbrev wall : ℕ → WallClock
wall at = record {
  year = 2026;
  month = 10;
  day = 1 + elapsed at / 86400;
  hour = elapsed at % 86400 / 3600;
  minute = elapsed at % 3600 / 60;
  second = elapsed at % 60;
}

abbrev lo : ℕ
lo = october + day_ms

abbrev hi : ℕ
hi = october + 28 * day_ms

zone : IsZone wall off lo hi
unfolding date_utc days_in_month
zone = record {
  civil = λ at a b. ground arith;
  ahead = λ at a b. ground arith;
  bounded = λ at a b. ground arith;
  even = λ at a b. ground arith;
}

abbrev half_past : WallClock
half_past = reading_at (2026, 10, 25) (2, 30)

-- The two instants, half an hour before the change and half an hour after.
abbrev summer : ℕ
summer = change - 1800000

abbrev winter : ℕ
winter = change + 1800000

half_past-IsAsked : IsAsked lo hi half_past
unfolding date_utc days_in_month
half_past-IsAsked = record {
  civil = record {
    year_from = omega arith;
    month_in = (omega arith, omega arith);
    day_in = (omega arith, ground arith);
    hour_in = omega arith;
    minute_in = omega arith;
    second_in = omega arith;
  };
  whole = refl;
  after_lo = ground arith;
  before_hi = ground arith;
}

abbrev on_the_day : Text
on_the_day = print_date 2026 10 25

abbrev at_half_past : Text
at_half_past = print_time 2 30

both_found : instants_reading wall half_past ≡ summer ∷ winter ∷ []
unfolding instants_reading date_utc sort
both_found = refl

asks_which :
    to_scheduled_at wall on_the_day at_half_past october none
    ≡ failed ErrorCode.ambiguous (some Field.time) (summer ∷ winter ∷ [])
unfolding to_scheduled_at print_date print_time date_utc sort
asks_which = refl

takes_the_second :
    to_scheduled_at wall on_the_day at_half_past october (some Occurrence.second) ≡ ok winter
unfolding to_scheduled_at print_date print_time date_utc sort
takes_the_second = refl

instants_reading_iff_example :
    (mem_id winter (instants_reading wall half_past) ≡ true) ↔ (wall winter ≡ half_past)
unfolding date_utc
instants_reading_iff_example =
    instants_reading_iff wall off lo hi zone half_past half_past-IsAsked winter (omega arith)
      (omega arith) (omega arith) (inr refl)

to_scheduled_at-IsAnswer_example :
    IsAnswer wall off lo hi october none half_past
      (to_scheduled_at wall on_the_day at_half_past october none)
unfolding read_date read_time print_date print_time
to_scheduled_at-IsAnswer_example =
    to_scheduled_at-IsAnswer wall off lo hi zone on_the_day at_half_past 2026 10 25 2 30 october
      none refl refl half_past-IsAsked

to_scheduled_at-schedule_fields_for_example :
    to_scheduled_at wall
      (schedule_fields_for wall (winter + 1500)).date
      (schedule_fields_for wall (winter + 1500)).time
      october
      (schedule_fields_for wall (winter + 1500)).occurrence
    ≡ ok winter
unfolding date_utc
to_scheduled_at-schedule_fields_for_example =
    to_scheduled_at-schedule_fields_for wall off lo hi zone (winter + 1500) (omega arith)
      (omega arith) half_past-IsAsked october (omega arith) (omega arith) (inr refl)

-- A runtime that reads one text back.
abbrev parse_date : Text → Option ℕ
parse_date t = some winter

abbrev in_utc : WallClock
in_utc = record { year = 2026; month = 10; day = 25; hour = 1; minute = 30; second = 0 }

in_utc-IsCivil : IsCivil in_utc
unfolding days_in_month
in_utc-IsCivil = record {
  year_from = omega arith;
  month_in = (omega arith, omega arith);
  day_in = (omega arith, ground arith);
  hour_in = omega arith;
  minute_in = omega arith;
  second_in = omega arith;
}

parse_scheduled_at-IsChecked_example :
    IsChecked parse_date
      (to_iso_string in_utc 0)
      october
      (parse_scheduled_at parse_date (some (to_iso_string in_utc 0)) october)
parse_scheduled_at-IsChecked_example =
    parse_scheduled_at-IsChecked parse_date (to_iso_string in_utc 0) october

parse_scheduled_at-to_iso_string_example :
    parse_scheduled_at parse_date (some (to_iso_string in_utc 0)) october ≡ ok winter
parse_scheduled_at-to_iso_string_example =
    parse_scheduled_at-to_iso_string parse_date in_utc 0 winter october in_utc-IsCivil (omega arith)
      refl

-- ===== src/Schedule/Iso.antt =====
-- The server's side: `parseScheduledAt`. What `new Date(text)` makes of a text is the runtime's:
-- `parse_date`, none for an invalid date.
pub mod Laws
use ai_email_broadcast_hw.Base.{
  ℕ, suc, Bool, true, false, not, ◌&&◌, ◌||◌, Option, none, some, List, [], ◌∷◌, ◌++◌, Text, ltb,
  leb, ◌==◌, if◌then◌else◌,
}
use ai_email_broadcast_hw.Address.{trim}
use ai_email_broadcast_hw.Address.Valid.{is_digit}
use ai_email_broadcast_hw.Schedule.{ErrorCode, ScheduleResult, ok, failed}
use ai_email_broadcast_hw.Schedule.Calendar.{WallClock, days_in_month}
use ai_email_broadcast_hw.Schedule.Digits.{
  ◌>>=◌, digits_from, digits, literal, at_end, print_digits, print_date, print_time,
}

pub record Parts : Type 0 where
  pub year : ℕ
  pub month : ℕ
  pub day : ℕ
  pub hour : ℕ
  pub minute : ℕ
  pub second : ℕ
  pub offset_hour : ℕ
  pub offset_minute : ℕ

abbrev pub digit : Text → Option Text
digit [] = none
digit (c ∷ cs) = if is_digit c then some cs else none

abbrev pub digit_if : Text → Text
digit_if [] = []
digit_if (c ∷ cs) = if is_digit c then cs else c ∷ cs

-- (?:\.\d{1,3})?
abbrev pub fraction : Text → Option Text
fraction [] = some []
fraction (c ∷ cs) =
    if c == b'.' then (do a ← digit cs; some (digit_if (digit_if a))) else some (c ∷ cs)

-- (?::(\d{2})(?:\.\d{1,3})?)?, with 0 for no seconds.
abbrev pub seconds : Text → Option (ℕ × Text)
seconds [] = some (0, [])
seconds (c ∷ cs) =
    if c == b':'
    then (do (second, a) ← digits 2 cs; b ← fraction a; some (second, b))
    else some (0, c ∷ cs)

-- (?:Z|[+-](\d{2}):(\d{2}))$, with 0 for no offset.
abbrev pub designator : Text → Option (ℕ × ℕ)
designator [] = none
designator (c ∷ cs) =
    if c == b'Z'
    then at_end (0, 0) cs
    else if c == b'+' || c == b'-'
    then (do
      (hour, a) ← digits 2 cs
      b ← literal b':' a
      (minute, d) ← digits 2 b
      at_end (hour, minute) d)
    else none

-- ISO_WITH_ZONE.
unfoldable pub read_parts : Text → Option Parts
unfolding digits_from
read_parts t = do
  (year, a) ← digits 4 t
  b ← literal b'-' a
  (month, c) ← digits 2 b
  d ← literal b'-' c
  (day, e) ← digits 2 d
  f ← literal b'T' e
  (hour, g) ← digits 2 f
  h ← literal b':' g
  (minute, i) ← digits 2 h
  (second, j) ← seconds i
  (offset_hour, offset_minute) ← designator j
  some (record {
    year = year;
    month = month;
    day = day;
    hour = hour;
    minute = minute;
    second = second;
    offset_hour = offset_hour;
    offset_minute = offset_minute;
  })

unfoldable pub components_valid : Parts → Bool
unfolding days_in_month
components_valid p =
    leb 1 p.month
    && (leb p.month 12
        && (leb 1 p.day
            && (leb p.day (days_in_month p.year p.month)
                && (leb p.hour 23
                    && (leb p.minute 59
                        && (leb p.second 59
                            && (leb p.offset_hour 23 && leb p.offset_minute 59)))))))

abbrev pub is_blank : Text → Bool
is_blank [] = true
is_blank (c ∷ cs) = false

abbrev pub check_date : ℕ → Bool → Option ℕ → ScheduleResult
check_date now valid none = failed ErrorCode.invalid none []
check_date now valid (some date) =
    if not valid
    then failed ErrorCode.invalid none []
    else if leb date now
    then failed ErrorCode.past none []
    else ok date

abbrev pub check_parts : ℕ → Option ℕ → Option Parts → ScheduleResult
check_parts now date none = failed ErrorCode.format none []
check_parts now date (some p) = check_date now (components_valid p) date

-- The value is none where it is no string.
unfoldable pub parse_scheduled_at : (Text → Option ℕ) → Option Text → ℕ → ScheduleResult
unfolding trim read_parts components_valid
parse_scheduled_at parse_date none now = failed ErrorCode.required none []
parse_scheduled_at parse_date (some t) now =
    if is_blank (trim t)
    then failed ErrorCode.required none []
    else check_parts now (parse_date t) (read_parts t)

-- `toISOString`: a reading in UTC and the milliseconds.
unfoldable pub to_iso_string : WallClock → ℕ → Text
unfolding print_date print_time print_digits
to_iso_string w ms =
    print_digits 4 w.year
    ++ b'-'
      ∷ (print_digits 2 w.month
          ++ b'-'
            ∷ (print_digits 2 w.day
                ++ b'T'
                  ∷ (print_digits 2 w.hour
                      ++ b':'
                        ∷ (print_digits 2 w.minute
                            ++ b':'
                              ∷ (print_digits 2 w.second
                                  ++ b'.' ∷ (print_digits 3 ms ++ b'Z' ∷ []))))))

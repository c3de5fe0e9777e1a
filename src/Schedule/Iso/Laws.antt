-- ===== src/Schedule/Iso/Laws.antt =====
-- The server accepts what the browser sends, as long as it is ahead, and nothing that is not.
use ai_email_broadcast_hw.Base.{
  ℕ, ◌+◌, ◌/◌, ◌%◌, ◌<◌, ◌≤◌, ◌≡◌, refl, inl, inr, true, false, Option, none, some, [], ◌∷◌, ◌++◌,
  Text, arith, leb, if◌then◌else◌, Bool-cases, Impossible, if_cases, leb→le, ◌⊎◌,
}
use ai_email_broadcast_hw.Address.{trim, trim_start, is_space}
use ai_email_broadcast_hw.Schedule.{ErrorCode, ScheduleResult, ok, failed}
use ai_email_broadcast_hw.Schedule.Calendar.{WallClock, days_in_month}
use ai_email_broadcast_hw.Schedule.Calendar.Laws.{IsCivil, days_in_month_le}
use ai_email_broadcast_hw.Schedule.Digits.{print_digits}
use ai_email_broadcast_hw.Schedule.Digits.Laws.{digits_two, digits_four, is_digit-printed}
use ai_email_broadcast_hw.Schedule.Iso.{
  Parts, fraction, read_parts, components_valid, check_date, check_parts, parse_scheduled_at,
  to_iso_string, is_blank,
}

fraction-printed :
    (ms : ℕ) (rest : Text)
    → fraction (b'.' ∷ (print_digits 3 ms ++ b'Z' ∷ rest)) ≡ some (b'Z' ∷ rest)
unfolding print_digits
fraction-printed ms rest =
    rw (is_digit-printed (ms / 10 / 10), is_digit-printed (ms / 10), is_digit-printed ms) refl

parts_of : WallClock → Parts
parts_of w = record {
  year = w.year;
  month = w.month;
  day = w.day;
  hour = w.hour;
  minute = w.minute;
  second = w.second;
  offset_hour = 0;
  offset_minute = 0;
}

read_parts-to_iso_string :
    (w : WallClock) (ms : ℕ)
    → IsCivil w
    → w.year < 10000
    → read_parts (to_iso_string w ms) ≡ some (parts_of w)
unfolding read_parts to_iso_string parts_of
read_parts-to_iso_string w ms c y =
    rw
      (
        digits_four w.year _ y,
        digits_two w.month _ (omega (arith, c.month_in)),
        digits_two w.day _ (omega (arith, c.day_in, days_in_month_le w.year w.month)),
        digits_two w.hour _ (omega (arith, c.hour_in)),
        digits_two w.minute _ (omega (arith, c.minute_in)),
        digits_two w.second _ (omega (arith, c.second_in)),
        fraction-printed ms [],
      )
      refl

components_valid-parts_of : (w : WallClock) → IsCivil w → components_valid (parts_of w) ≡ true
unfolding components_valid parts_of
components_valid-parts_of w c = ground arith

is_space-printed : (v : ℕ) → is_space (48 + v % 10) ≡ false
unfolding is_space
is_space-printed v = ground arith

not_blank : (w : WallClock) (ms : ℕ) → is_blank (trim (to_iso_string w ms)) ≡ false
unfolding to_iso_string trim trim_start print_digits
not_blank w ms = rw (is_space-printed (w.year / 10 / 10 / 10)) refl

-- A date of the calendar, a time of the day and an offset.
pub record IsReal (p : Parts) : Type 0 where
  pub month_in : (1 ≤ p.month) × (p.month ≤ 12)
  pub day_in : (1 ≤ p.day) × (p.day ≤ days_in_month p.year p.month)
  pub time_in : (p.hour < 24) × (p.minute < 60) × (p.second < 60)
  pub offset_in : (p.offset_hour < 24) × (p.offset_minute < 60)

components_valid-IsReal : (p : Parts) → components_valid p ≡ true → IsReal p
unfolding components_valid
components_valid-IsReal p h = ground arith

module _ (parse_date : Text → Option ℕ) where
  -- What an answer says of the text of the request.
  unfoldable pub IsChecked : Text → ℕ → ScheduleResult → Type 0
  IsChecked t now (ok d) =
      (p : Parts) × (read_parts t ≡ some p) × IsReal p × (parse_date t ≡ some d) × (now < d)
  IsChecked t now (failed ErrorCode.past f cs) = (d : ℕ) × (parse_date t ≡ some d) × (d ≤ now)
  IsChecked t now (failed ErrorCode.required f cs) = is_blank (trim t) ≡ true
  IsChecked t now (failed ErrorCode.format f cs) = read_parts t ≡ none
  IsChecked t now (failed ErrorCode.invalid f cs) =
      (p : Parts) × (read_parts t ≡ some p) × ((components_valid p ≡ false) ⊎ (parse_date t ≡ none))
  IsChecked t now (failed _ f cs) = Impossible

  check_date-IsChecked :
      (t : Text) (now : ℕ) (p : Parts) (date : Option ℕ)
      → read_parts t ≡ some p
      → parse_date t ≡ date
      → IsChecked t now (check_date now (components_valid p) date)
  unfolding IsChecked
  check_date-IsChecked t now p none e d = (p, e, inr d)
  check_date-IsChecked t now p (some date) e d = elim (Bool-cases (components_valid p)) [
    | inr v ↦ rw v (p, e, inl v)
    | inl v ↦ rw v (
        if_cases (IsChecked t now) (leb date now) (λ a. (date, d, leb→le date now a))
          (λ a. (p, e, components_valid-IsReal p v, d, ground arith)))
  ]

  check_parts-IsChecked :
      (t : Text) (now : ℕ) (parts : Option Parts)
      → read_parts t ≡ parts
      → IsChecked t now (check_parts now (parse_date t) parts)
  unfolding IsChecked
  check_parts-IsChecked t now none e = e
  check_parts-IsChecked t now (some p) e = check_date-IsChecked t now p (parse_date t) e refl

  -- The server takes a time only if it is written with a zone, is a date of the calendar and a time
  -- of the day, and is strictly ahead of its clock; and each refusal is given for its reason:
  -- blank, not of the form, no real date, or not ahead.
  pub parse_scheduled_at-IsChecked :
      (t : Text) (now : ℕ) → IsChecked t now (parse_scheduled_at parse_date (some t) now)
  unfolding parse_scheduled_at IsChecked
  parse_scheduled_at-IsChecked t now =
      if_cases (IsChecked t now) (is_blank (trim t)) (λ e. e)
        (λ e. check_parts-IsChecked t now (read_parts t) refl)

  -- What the browser sends for an instant (`toISOString`) is taken by the server exactly if the
  -- instant is ahead of the server's clock. (The text is that of a UTC reading in a year from 100 to
  -- 9999, and the runtime reads it back as the instant.)
  pub parse_scheduled_at-to_iso_string :
      (w : WallClock) (ms at now : ℕ)
      → IsCivil w
      → w.year < 10000
      → parse_date (to_iso_string w ms) ≡ some at
      → parse_scheduled_at parse_date (some (to_iso_string w ms)) now
        ≡ (if leb at now then failed ErrorCode.past none [] else ok at)
  unfolding parse_scheduled_at
  parse_scheduled_at-to_iso_string w ms at now c y e =
      rw (not_blank w ms, e, read_parts-to_iso_string w ms c y, components_valid-parts_of w c) refl

-- ===== src/Schedule/Calendar/Laws.antt =====
-- Different dates have different day numbers, and different readings different instants.
use native.Mathlib.Nat.{le_refl}
use native.Mathlib.Decide.{le_ind}
use ai_email_broadcast_hw.Base.{
  ℕ, suc, ◌+◌, ◌*◌, ◌%◌, ◌≤◌, ◌<◌, ◌≡◌, sym, ap, subst, ◌∙◌, arith, if◌then◌else◌,
}
use ai_email_broadcast_hw.Schedule.Calendar.{
  WallClock, is_leap, length_of_month, days_before_year, days_before_month, utc_year, day_number,
  date_utc, days_in_month, seconds_of,
}

-- A reading of a clock, in a year that `Date.UTC` takes as it is.
pub record IsCivil (w : WallClock) : Type 0 where
  pub year_from : 100 ≤ w.year
  pub month_in : (1 ≤ w.month) × (w.month ≤ 12)
  pub day_in : (1 ≤ w.day) × (w.day ≤ days_in_month w.year w.month)
  pub hour_in : w.hour < 24
  pub minute_in : w.minute < 60
  pub second_in : w.second < 60

abbrev length_of_year : ℕ → ℕ
length_of_year y = if is_leap y then 366 else 365

days_before_year-suc : (y : ℕ) → days_before_year (suc y) ≡ days_before_year y + length_of_year y
unfolding days_before_year is_leap
days_before_year-suc y = ground arith

days_before_year_mono : (i j : ℕ) → i ≤ j → days_before_year i ≤ days_before_year j
days_before_year_mono i j =
    le_ind (λ m. days_before_year i ≤ days_before_year m) (le_refl _)
      (λ m le ih. ground (arith, days_before_year-suc m)) j

-- A month's days, before the next month and within the year.
month_ends :
    (y m n : ℕ)
    → 1 ≤ m
    → m < n
    → n ≤ 12
    → days_before_month y m + length_of_month y m ≤ days_before_month y n
unfolding days_before_month length_of_month
month_ends y m n a b c = ground arith

year_ends :
    (y m : ℕ) → 1 ≤ m → m ≤ 12 → days_before_month y m + length_of_month y m ≤ length_of_year y
unfolding days_before_month length_of_month
year_ends y m a b = ground arith

-- A day of a month, with the month's bounds and the day's.
abbrev IsDate : ℕ → ℕ → ℕ → Type 0
IsDate y m d = (1 ≤ m) × (m ≤ 12) × (1 ≤ d) × (d ≤ length_of_month y m)

earlier_year : (y m d y' m' d' : ℕ) → IsDate y m d → y < y' → day_number y m d < day_number y' m' d'
unfolding day_number
earlier_year y m d y' m' d' (a, b, c, e) lt = omega (
  arith,
  year_ends y m a b,
  days_before_year-suc y,
  days_before_year_mono (suc y) y' (omega arith),
)

earlier_month :
    (y m d m' d' : ℕ) → IsDate y m d → m < m' → m' ≤ 12 → day_number y m d < day_number y m' d'
unfolding day_number
earlier_month y m d m' d' (a, b, c, e) lt le = omega (arith, month_ends y m m' a lt le)

same_month : (y m d d' : ℕ) → 1 ≤ d → 1 ≤ d' → day_number y m d ≡ day_number y m d' → d ≡ d'
unfolding day_number
same_month y m d d' a b e = omega (arith, e)

same_year :
    (y m d m' d' : ℕ)
    → IsDate y m d
    → IsDate y m' d'
    → day_number y m d ≡ day_number y m' d'
    → (m ≡ m') × (d ≡ d')
same_year y m d m' d' v w e =
    let months : m ≡ m' =
      grind (arith, earlier_month y m d m' d' v, earlier_month y m' d' m d w, v.1, w.1, e) in
    let equal : day_number y m d ≡ day_number y m d' =
      e ∙ ap (λ x. day_number y x d') (sym months) in
    (months, same_month y m d d' v.2 w.2 equal)

day_number_injective :
    (y m d y' m' d' : ℕ)
    → IsDate y m d
    → IsDate y' m' d'
    → day_number y m d ≡ day_number y' m' d'
    → (y ≡ y') × (m ≡ m') × (d ≡ d')
day_number_injective y m d y' m' d' v w e =
    let years : y ≡ y' =
      grind (arith, earlier_year y m d y' m' d' v, earlier_year y' m' d' y m d w, e) in
    let there : IsDate y m' d' = subst (λ x. IsDate x m' d') (sym years) w in
    let equal : day_number y m d ≡ day_number y m' d' =
      e ∙ ap (λ x. day_number x m' d') (sym years) in
    let (months, days) = same_year y m d m' d' v there equal in (years, months, days)

utc_year_late : (y : ℕ) → 100 ≤ y → utc_year y ≡ y
unfolding utc_year
utc_year_late y h = ground arith

time_of_day :
    (a b h k i j s t : ℕ)
    → h < 24
    → k < 24
    → i < 60
    → j < 60
    → s < 60
    → t < 60
    → seconds_of a h i s * 1000 ≡ seconds_of b k j t * 1000
    → (a ≡ b) × (h ≡ k) × (i ≡ j) × (s ≡ t)
time_of_day a b h k i j s t p q r u v w e = omega arith

civil-IsDate : (w : WallClock) → IsCivil w → IsDate (utc_year w.year) w.month w.day
unfolding days_in_month
civil-IsDate w v = (v.month_in.0, v.month_in.1, v.day_in.0, v.day_in.1)

-- Two readings are one instant only if they are one reading.
pub date_utc_injective : (v w : WallClock) → IsCivil v → IsCivil w → date_utc v ≡ date_utc w → v ≡ w
unfolding date_utc
date_utc_injective v w p q e =
    let (days, hours, minutes, seconds) =
      time_of_day (2 + day_number (utc_year v.year) v.month v.day)
        (2 + day_number (utc_year w.year) w.month w.day) v.hour w.hour v.minute w.minute v.second
        w.second p.hour_in q.hour_in p.minute_in q.minute_in p.second_in q.second_in e in
    let (years, months, same_days) =
      day_number_injective (utc_year v.year) v.month v.day (utc_year w.year) w.month w.day
        (civil-IsDate v p) (civil-IsDate w q) (omega (arith, days)) in
    let same_years : v.year ≡ w.year =
      sym (utc_year_late v.year p.year_from) ∙ years ∙ utc_year_late w.year q.year_from in
    cc

-- A reading to the minute is a whole minute, and at least two days on.
pub date_utc_minute :
    (w : WallClock) → w.second ≡ 0 → (date_utc w % 60000 ≡ 0) × (172800000 ≤ date_utc w)
unfolding date_utc
date_utc_minute w h = omega (arith, h)

pub days_in_month_le : (y m : ℕ) → days_in_month y m ≤ 31
unfolding days_in_month length_of_month
days_in_month_le y m = ground arith

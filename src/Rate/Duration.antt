-- ===== src/Rate/Duration.antt =====
-- `formatDuration` of src/lib/rate-limit.ts, with the wording as data.
use ai_email_broadcast_hw.Base.{ℕ, ◌+◌, ◌*◌, ◌/◌, ◌%◌, ◌≤◌, ◌≡◌, arith, leb, ◌==◌, if◌then◌else◌}

pub data Wording : Type 0 where
  less_than_a_minute about_a_minute about_an_hour : Wording
  about_minutes about_hours : ℕ → Wording
  about_hours_minutes : ℕ → ℕ → Wording

-- `Math.round(x / 60)` rounds a half up.
unfoldable pub round_minutes : ℕ → ℕ
round_minutes s = (2 * s + 60) / 120

unfoldable pub format_duration : ℕ → Wording
unfolding round_minutes
format_duration s =
    let hours = s / 3600 in
    let minutes = round_minutes (s % 3600) in
    if s == 0
    then less_than_a_minute
    else if hours == 0
    then (if leb minutes 1 then about_a_minute else about_minutes minutes)
    else if minutes == 0
    then (if hours == 1 then about_an_hour else about_hours hours)
    else about_hours_minutes hours minutes

-- A time of at least an hour whose last hour has run all but its last half minute is worded with
-- sixty minutes, not with one hour more.
format_duration_sixty :
    (s : ℕ) → 3600 ≤ s → 3570 ≤ s % 3600 → format_duration s ≡ about_hours_minutes (s / 3600) 60
unfolding format_duration
format_duration_sixty s h k =
    let m : (2 * (s % 3600) + 60) / 120 ≡ 60 = omega arith in ground (arith, m)

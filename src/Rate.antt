-- ===== src/Rate.antt =====
-- The arithmetic of the rate limit, src/lib/rate-limit.ts. The safety factor is a fraction of two
-- numbers, where the source has a double; counts and seconds are whole numbers.
pub mod Laws
pub mod Duration
use ai_email_broadcast_hw.Base.{
  ℕ, zero, suc, ◌+◌, ◌-◌, ◌*◌, ◌/◌, ◌≤◌, ◌<◌, min, max, Bool, true, false, not, ◌&&◌, Option, none,
  some, List, [], ◌∷◌, ltb, leb, ◌==◌, if◌then◌else◌,
}

pub record Fraction : Type 0 where
  pub num : ℕ
  pub den : ℕ

abbrev pub default_safety_factor : Fraction
default_safety_factor = record { num = 95; den = 100 }

-- SMTP_RATE_SAFETY_FACTOR as a finite number, if it is one.
unfoldable pub safety_factor : Option Fraction → Fraction
safety_factor none = default_safety_factor
safety_factor (some f) = if ltb 0 f.num && leb f.num f.den then f else default_safety_factor

unfoldable pub effective_hourly_limit : ℕ → Fraction → ℕ
effective_hourly_limit max_per_hour factor =
    if max_per_hour == 0 then 0 else max 1 (max_per_hour * factor.num / factor.den)

-- `Math.max(0, a - b)` is the subtraction that stops at 0.
unfoldable pub remaining_allowance : ℕ → ℕ → Fraction → ℕ
remaining_allowance max_per_hour sent factor = effective_hourly_limit max_per_hour factor - sent

abbrev pub hour_seconds : ℕ
hour_seconds = 3600

pub record RateWindow : Type 0 where
  pub max_emails : ℕ
  pub window_seconds : ℕ
  pub window_factor : Option Fraction

-- `Math.ceil(a / b)`; `none` is the Infinity of a division by 0.
unfoldable pub ceil_div : ℕ → ℕ → Option ℕ
ceil_div a b = if b == 0 then none else some ((a + b - 1) / b)

abbrev pub min_some : ℕ → Option ℕ → ℕ
min_some a none = a
min_some a (some b) = min a b

pub record BatchOptions : Type 0 where
  pub max_per_hour : ℕ
  pub sent_in_last_hour : ℕ
  pub batch_cap : ℕ
  pub tick_interval_seconds : ℕ
  pub factor : Fraction
  pub window_seconds : ℕ

unfoldable pub per_tick_share : BatchOptions → Option ℕ
per_tick_share o =
    ceil_div (effective_hourly_limit o.max_per_hour o.factor * max 1 o.tick_interval_seconds)
      o.window_seconds

unfoldable pub batch_size : BatchOptions → ℕ
batch_size o =
    let allowance = remaining_allowance o.max_per_hour o.sent_in_last_hour o.factor in
    if allowance == 0 then 0 else min_some (min allowance o.batch_cap) (per_tick_share o)

unfoldable pub estimate_duration_seconds : ℕ → ℕ → Fraction → ℕ
estimate_duration_seconds recipients max_per_hour factor =
    let limit = effective_hourly_limit max_per_hour factor in
    if limit == 0 then 0 else (recipients * 3600 + limit - 1) / limit

-- `ladder[Math.min(attempts, 3) - 1] ?? 900`; the index -1 is outside the array.
unfoldable pub retry_delay_seconds : ℕ → ℕ
retry_delay_seconds attempts =
    if attempts == 0 then 900 else if attempts == 1 then 60 else if attempts == 2 then 300 else 900

unfoldable pub should_retry : ℕ → Bool → ℕ → Bool
should_retry attempts permanent max_attempts = not permanent && ltb attempts max_attempts

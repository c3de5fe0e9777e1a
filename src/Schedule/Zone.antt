-- ===== src/Schedule/Zone.antt =====
-- Time zones: `wall` is what `Intl.DateTimeFormat` says that a clock in the zone reads at an instant
-- (`wallClockAt`). An offset is counted from 24 hours behind UTC, so that it is a number.
pub mod Readings
pub mod Short
use ai_email_broadcast_hw.Base.{
  ℕ, suc, ◌+◌, ◌-◌, ◌*◌, ◌/◌, ◌%◌, Bool, true, false, not, ◌&&◌, ◌||◌, Option, none, some, List, [],
  ◌∷◌, Text, ltb, leb, ◌==◌, if◌then◌else◌, mem_id,
}
use ai_email_broadcast_hw.Base.Sort.{sort}
use ai_email_broadcast_hw.Schedule.{ErrorCode, Field}
use ai_email_broadcast_hw.Schedule.Calendar.{WallClock, date_utc, days_in_month}
use ai_email_broadcast_hw.Schedule.Digits.{read_date, read_time}

abbrev pub day_ms : ℕ
day_ms = 86400000

abbrev pub minute_ms : ℕ
minute_ms = 60000

-- The whole seconds, and the minute, of an instant.
abbrev pub whole_second : ℕ → ℕ
whole_second at = at / 1000 * 1000

abbrev pub whole_minute : ℕ → ℕ
whole_minute at = at / minute_ms * minute_ms

module _ (wall : ℕ → WallClock) where
  -- `zoneOffsetMinutes`; half a minute is rounded up.
  unfoldable pub zone_offset : ℕ → ℕ
  unfolding date_utc
  zone_offset at = (date_utc (wall at) + day_ms - whole_second at + minute_ms / 2) / minute_ms

  abbrev pub offsets_around : ℕ → List ℕ
  offsets_around noon =
      let before = zone_offset (noon - day_ms) in
      let after = zone_offset (noon + day_ms) in
      if before == after then before ∷ [] else before ∷ after ∷ []

  -- The instants that the offsets give, each once, where the offset is in force there.
  unfoldable pub keep_in_force : ℕ → List ℕ → List ℕ
  unfolding zone_offset
  keep_in_force as_utc [] = []
  keep_in_force as_utc (o ∷ os) =
      let rest = keep_in_force as_utc os in
      let candidate = as_utc + day_ms - o * minute_ms in
      if zone_offset candidate == o
      then (if mem_id candidate rest then rest else candidate ∷ rest)
      else rest

  -- `instantsReading`, for a reading with no seconds.
  unfoldable pub instants_reading : WallClock → List ℕ
  unfolding keep_in_force zone_offset
  instants_reading w = sort leb (keep_in_force (date_utc w) (offsets_around (date_utc w)))

-- The instants that a reading can mean, one or two, or why there is none.
pub data Resolved : Type 0 where
  candidates : List ℕ → Resolved
  unreadable : ErrorCode → Field → Resolved

abbrev pub is_nil : List ℕ → Bool
is_nil [] = true
is_nil (x ∷ xs) = false

abbrev pub find_instants : List ℕ → Resolved
find_instants [] = unreadable ErrorCode.nonexistent Field.time
find_instants (c ∷ cs) = candidates (c ∷ cs)

abbrev pub reading_at : ℕ × ℕ × ℕ → ℕ × ℕ → WallClock
reading_at (y, m, d) (h, mi) = record {
  year = y;
  month = m;
  day = d;
  hour = h;
  minute = mi;
  second = 0;
}

unfoldable pub is_no_date : ℕ → ℕ → ℕ → Bool
unfolding days_in_month
is_no_date y m d = ltb m 1 || (ltb 12 m || (ltb d 1 || ltb (days_in_month y m) d))

abbrev pub is_no_time : ℕ → ℕ → Bool
is_no_time h mi = ltb 23 h || ltb 59 mi

module _ (wall : ℕ → WallClock) where
  unfoldable pub resolve_parts : ℕ × ℕ × ℕ → ℕ × ℕ → Resolved
  unfolding instants_reading is_no_date
  resolve_parts (y, m, d) (h, mi) =
      if is_no_date y m d
      then unreadable ErrorCode.invalid Field.date
      else if is_no_time h mi
      then unreadable ErrorCode.invalid Field.time
      else find_instants (instants_reading wall (reading_at (y, m, d) (h, mi)))

  abbrev pub resolve_read : Option (ℕ × ℕ × ℕ) → Option (ℕ × ℕ) → Resolved
  resolve_read none none = unreadable ErrorCode.required Field.both
  resolve_read none (some t) = unreadable ErrorCode.required Field.date
  resolve_read (some d) none = unreadable ErrorCode.required Field.time
  resolve_read (some d) (some t) = resolve_parts d t

  -- `resolveWallClock`.
  unfoldable pub resolve_wall_clock : Text → Text → Resolved
  unfolding resolve_parts read_date read_time
  resolve_wall_clock date time = resolve_read (read_date date) (read_time time)

-- ===== src/Schedule/Form.antt =====
-- The browser's side: from the fields of the form to an instant (`toScheduledAt`), and back
-- (`scheduleFieldsFor`). `wall` is the clock of the user's zone.
pub mod Answers
pub mod RoundTrip
use ai_email_broadcast_hw.Base.{
  ℕ, suc, ◌+◌, ◌-◌, ◌*◌, ◌/◌, ◌%◌, Bool, true, false, not, ◌&&◌, ◌||◌, Option, none, some, List, [],
  ◌∷◌, ◌++◌, Text, ltb, leb, ◌==◌, if◌then◌else◌, text_eq,
}
use ai_email_broadcast_hw.Schedule.{ErrorCode, Field, Occurrence, ScheduleResult, ok, failed}
use ai_email_broadcast_hw.Schedule.Calendar.{WallClock}
use ai_email_broadcast_hw.Schedule.Digits.{print_digits, print_date, print_time}
use ai_email_broadcast_hw.Schedule.Zone.{
  Resolved, candidates, unreadable, resolve_wall_clock, instants_reading, zone_offset, minute_ms,
  whole_minute,
}

-- `<` on texts.
unfoldable pub text_lt : Text → Text → Bool
text_lt s [] = false
text_lt [] (d ∷ ds) = true
text_lt (c ∷ cs) (d ∷ ds) = if c == d then text_lt cs ds else ltb c d

abbrev pub every_past : ℕ → List ℕ → Bool
every_past now [] = true
every_past now (c ∷ cs) = leb c now && every_past now cs

-- The last test: the instant is still ahead.
abbrev pub if_ahead : Field → ℕ → ℕ → ScheduleResult
if_ahead field now c = if leb c now then failed ErrorCode.past (some field) [] else ok c

-- Of two readings the caller picks one.
abbrev pub pick : Field → ℕ → ℕ → ℕ → List ℕ → Option Occurrence → ScheduleResult
pick field now c d cs none = failed ErrorCode.ambiguous (some Field.time) (c ∷ d ∷ cs)
pick field now c d cs (some Occurrence.first) = if_ahead field now c
pick field now c d cs (some Occurrence.second) = if_ahead field now d

abbrev pub choose : Field → ℕ → Option Occurrence → List ℕ → ScheduleResult
choose field now occurrence [] = failed ErrorCode.nonexistent (some Field.time) []
choose field now occurrence (c ∷ []) = if_ahead field now c
choose field now occurrence (c ∷ d ∷ cs) =
    if every_past now (c ∷ d ∷ cs)
    then failed ErrorCode.past (some field) []
    else pick field now c d cs occurrence

abbrev pub answer : Field → ℕ → Option Occurrence → Resolved → ScheduleResult
answer field now occurrence (unreadable code f) = failed code (some f) []
answer field now occurrence (candidates cs) = choose field now occurrence cs

abbrev pub occurrence_of : ℕ → List ℕ → Option Occurrence
occurrence_of minute [] = none
occurrence_of minute (c ∷ []) = none
occurrence_of minute (c ∷ d ∷ cs) =
    if c == minute then some Occurrence.first else some Occurrence.second

pub record Fields : Type 0 where
  pub date : Text
  pub time : Text
  pub occurrence : Option Occurrence

module _ (wall : ℕ → WallClock) where
  unfoldable pub format_local_date : ℕ → Text
  unfolding print_date
  format_local_date at = print_date (wall at).year (wall at).month (wall at).day

  unfoldable pub format_local_time : ℕ → Text
  unfolding print_time
  format_local_time at = print_time (wall at).hour (wall at).minute

  -- A whole day already gone is the date's fault, a time earlier today the time's.
  unfoldable pub past_field : Text → ℕ → Field
  unfolding format_local_date text_lt
  past_field date now = if text_lt date (format_local_date now) then Field.date else Field.time

  -- `toScheduledAt`.
  unfoldable pub to_scheduled_at : Text → Text → ℕ → Option Occurrence → ScheduleResult
  unfolding past_field resolve_wall_clock
  to_scheduled_at date time now occurrence =
      answer (past_field date now) now occurrence (resolve_wall_clock wall date time)

  -- The reading of the clock to the minute.
  abbrev pub to_the_minute : ℕ → WallClock
  to_the_minute at = record (wall at) { second = 0 }

  -- `scheduleFieldsFor`.
  unfoldable pub schedule_fields_for : ℕ → Fields
  unfolding format_local_date format_local_time instants_reading
  schedule_fields_for at = record {
    date = format_local_date at;
    time = format_local_time at;
    occurrence = occurrence_of (whole_minute at) (instants_reading wall (to_the_minute at));
  }

  -- `minimumTimeFor`.
  unfoldable pub minimum_time_for : Text → ℕ → Option Text
  unfolding format_local_date format_local_time
  minimum_time_for date now =
      let next_minute = now + minute_ms in
      if text_eq date []
        || (not (text_eq date (format_local_date now))
            || not (text_eq (format_local_date next_minute) date))
      then none
      else some (format_local_time next_minute)

  -- The text "(UTC+hh:mm)" of `describeLocalTimeZone`, after the zone's name.
  unfoldable pub describe_local_time_zone : Text → ℕ → Text
  unfolding zone_offset print_time
  describe_local_time_zone name at =
      let offset = zone_offset wall at in
      let behind = ltb offset 1440 in
      let minutes = if behind then 1440 - offset else offset - 1440 in
      name
      ++ b' '
        ∷ b'('
        ∷ b'U'
        ∷ b'T'
        ∷ b'C'
        ∷ (if behind then b'-' else b'+')
        ∷ (print_time (minutes / 60) (minutes % 60) ++ b')' ∷ [])

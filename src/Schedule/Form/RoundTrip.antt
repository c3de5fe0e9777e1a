-- ===== src/Schedule/Form/RoundTrip.antt =====
-- The fields that are put into the form for an instant are read back as that instant.
use ai_email_broadcast_hw.Base.{
  ℕ, ◌+◌, ◌-◌, ◌*◌, ◌<◌, ◌≤◌, ◌≡◌, refl, sym, ap, subst, ◌∙◌, ◌⊎◌, true, List, [], ◌∷◌, arith, leb,
  mem_id, length,
}
use ai_email_broadcast_hw.Base.Sort.{length-sort}
use ai_email_broadcast_hw.Schedule.{Field, ok}
use ai_email_broadcast_hw.Schedule.Calendar.{WallClock, date_utc}
use ai_email_broadcast_hw.Schedule.Calendar.Laws.{
  days_in_month_le, date_utc_injective, date_utc_minute,
}
use ai_email_broadcast_hw.Schedule.Digits.{print_date, print_time}
use ai_email_broadcast_hw.Schedule.Digits.Laws.{read_date-print_date, read_time-print_time}
use ai_email_broadcast_hw.Schedule.Zone.{
  instants_reading, keep_in_force, offsets_around, day_ms, whole_minute,
}
use ai_email_broadcast_hw.Schedule.Zone.Readings.{IsZone, IsAsked, instants_found}
use ai_email_broadcast_hw.Schedule.Form.{
  if_ahead, choose, answer, to_scheduled_at, past_field, to_the_minute, occurrence_of,
  schedule_fields_for, format_local_date, format_local_time,
}
use ai_email_broadcast_hw.Schedule.Form.Answers.{resolve_read_parts, answer-find_instants}

if_ahead_lem : (field : Field) (now c : ℕ) → now < c → if_ahead field now c ≡ ok c
if_ahead_lem field now c h = ground arith

-- Of at most two instants, the one that the occurrence stands for is picked.
choose-occurrence_of :
    (field : Field) (now minute : ℕ) (cs : List ℕ)
    → length cs ≤ 2
    → mem_id minute cs ≡ true
    → now < minute
    → choose field now (occurrence_of minute cs) cs ≡ ok minute
choose-occurrence_of field now minute [] two m h = cc
choose-occurrence_of field now minute (c ∷ []) two m h =
    let same : minute ≡ c = ground arith in
    subst (λ x. if_ahead field now x ≡ ok minute) same (if_ahead_lem field now minute h)
choose-occurrence_of field now minute (c ∷ d ∷ e ∷ cs) two m h = ground arith
choose-occurrence_of field now minute (c ∷ d ∷ []) two m h = ground arith

module _ (wall : ℕ → WallClock) where
  length-keep_in_force : (w : ℕ) (os : List ℕ) → length (keep_in_force wall w os) ≤ length os
  unfolding keep_in_force
  length-keep_in_force w [] = omega arith
  length-keep_in_force w (o ∷ os) = ground (arith, length-keep_in_force w os)

  length-instants_reading : (w : WallClock) → length (instants_reading wall w) ≤ 2
  unfolding instants_reading
  length-instants_reading w =
      let offsets : length (offsets_around wall (date_utc w)) ≤ 2 = ground arith in
      omega (
        arith,
        offsets,
        length-keep_in_force (date_utc w) (offsets_around wall (date_utc w)),
        length-sort leb (keep_in_force wall (date_utc w) (offsets_around wall (date_utc w))),
      )

  module _ (off : ℕ → ℕ) (lo hi : ℕ) (zone : IsZone wall off lo hi) (at : ℕ)
      (from : lo ≤ whole_minute at) (to : at < hi)
      (asked : IsAsked lo hi (to_the_minute wall at)) where
    date_utc-to_the_minute :
        date_utc (wall at) ≡ date_utc (to_the_minute wall at) + (wall at).second * 1000
    unfolding date_utc
    date_utc-to_the_minute = omega arith

    -- At the minute the clock reads the instant's time with no seconds.
    minute_reads : wall (whole_minute at) ≡ to_the_minute wall at
    minute_reads =
        let here : lo ≤ at = omega (arith, from) in
        let there : whole_minute at < hi = omega (arith, to) in
        let (whole, late) = date_utc_minute (to_the_minute wall at) refl in
        date_utc_injective (wall (whole_minute at)) (to_the_minute wall at)
          (zone.civil (whole_minute at) from there) asked.civil
          (omega (
            arith,
            zone.ahead at here to,
            zone.ahead (whole_minute at) from there,
            zone.even at from to,
            date_utc-to_the_minute,
            whole,
            (zone.civil at here to).second_in,
          ))

    -- The fields for an instant that is ahead, typed back with the occurrence that they name, mean
    -- that instant, to the minute, though the clocks go back over it: nobody is asked to choose a time
    -- that was chosen already. (The zone's clock is known around the instant, where its offset is that
    -- of a day before or after, and the year has four digits.)
    pub to_scheduled_at-schedule_fields_for :
        (now : ℕ)
        → now < whole_minute at
        → (wall at).year < 10000
        → (off at ≡ off (date_utc (to_the_minute wall at) - day_ms))
          ⊎ (off at ≡ off (date_utc (to_the_minute wall at) + day_ms))
        → to_scheduled_at wall
            (schedule_fields_for wall at).date
            (schedule_fields_for wall at).time
            now
            (schedule_fields_for wall at).occurrence
          ≡ ok (whole_minute at)
    unfolding to_scheduled_at schedule_fields_for format_local_date format_local_time
    to_scheduled_at-schedule_fields_for now ahead year edge =
        let w = to_the_minute wall at in
        let civil = asked.civil in
        let r = wall at in
        let date = print_date r.year r.month r.day in
        let time = print_time r.hour r.minute in
        let cs = instants_reading wall w in
        let field = past_field wall date now in
        let occurrence = occurrence_of (whole_minute at) cs in
        let found : mem_id (whole_minute at) cs ≡ true =
          instants_found wall off lo hi zone w asked (whole_minute at) from (omega (arith, to))
            minute_reads (omega arith)
            (subst (λ o. (o ≡ off (date_utc w - day_ms)) ⊎ (o ≡ off (date_utc w + day_ms)))
              (sym (zone.even at from to)) edge) in
        ap (answer field now occurrence) (
          resolve_read_parts wall date time r.year r.month r.day r.hour r.minute
            (read_date-print_date r.year r.month r.day year (omega (arith, civil.month_in))
              (omega (arith, civil.day_in, days_in_month_le r.year r.month)))
            (read_time-print_time r.hour r.minute (omega (arith, civil.hour_in))
              (omega (arith, civil.minute_in)))
            asked.civil)
        ∙ answer-find_instants wall field now occurrence cs
        ∙ choose-occurrence_of field now (whole_minute at) cs (length-instants_reading w) found
            ahead

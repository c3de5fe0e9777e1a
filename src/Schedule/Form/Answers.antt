-- ===== src/Schedule/Form/Answers.antt =====
-- Every answer to a time that was typed is given for its reason.
use ai_email_broadcast_hw.Base.{
  ℕ, ◌+◌, ◌-◌, ◌%◌, ◌<◌, ◌≤◌, ◌≡◌, refl, sym, ap, subst, ◌∙◌, ◌⊎◌, true, false, Option, none, some,
  List, [], ◌∷◌, Text, arith, leb, All, if_cases, Impossible, mem_id,
}
use ai_email_broadcast_hw.Schedule.{ErrorCode, Field, Occurrence, ScheduleResult, ok, failed}
use ai_email_broadcast_hw.Schedule.Calendar.{WallClock, date_utc}
use ai_email_broadcast_hw.Schedule.Calendar.Laws.{IsCivil}
use ai_email_broadcast_hw.Schedule.Digits.{read_date, read_time}
use ai_email_broadcast_hw.Schedule.Zone.{
  resolve_wall_clock, resolve_parts, is_no_date, is_no_time, reading_at, find_instants,
  instants_reading, day_ms, minute_ms,
}
use ai_email_broadcast_hw.Schedule.Zone.Short.{IsShort, instants_reading-IsShort}
use ai_email_broadcast_hw.Schedule.Zone.Readings.{IsZone, IsAsked, instants_read, instants_found}
use ai_email_broadcast_hw.Schedule.Form.{
  every_past, if_ahead, choose, answer, to_scheduled_at, past_field,
}

civil_date_is : (y m d h mi : ℕ) → IsCivil (reading_at (y, m, d) (h, mi)) → is_no_date y m d ≡ false
unfolding is_no_date
civil_date_is y m d h mi c = ground arith

module _ (wall : ℕ → WallClock) where
  resolve_parts_civil :
      (y m d h mi : ℕ)
      → IsCivil (reading_at (y, m, d) (h, mi))
      → resolve_parts wall (y, m, d) (h, mi)
        ≡ find_instants (instants_reading wall (reading_at (y, m, d) (h, mi)))
  unfolding resolve_parts
  resolve_parts_civil y m d h mi c =
      let date_is : is_no_date y m d ≡ false = civil_date_is y m d h mi c in
      let time_is : is_no_time h mi ≡ false = ground arith in rw (date_is, time_is) refl

  -- A reading that a clock can show is resolved to its instants.
  pub resolve_read_parts :
      (date time : Text) (y m d h mi : ℕ)
      → read_date date ≡ some (y, m, d)
      → read_time time ≡ some (h, mi)
      → IsCivil (reading_at (y, m, d) (h, mi))
      → resolve_wall_clock wall date time
        ≡ find_instants (instants_reading wall (reading_at (y, m, d) (h, mi)))
  unfolding resolve_wall_clock
  resolve_read_parts date time y m d h mi a b c = rw (a, b) (resolve_parts_civil y m d h mi c)

  pub answer-find_instants :
      (field : Field) (now : ℕ) (occurrence : Option Occurrence) (cs : List ℕ)
      → answer field now occurrence (find_instants cs) ≡ choose field now occurrence cs
  answer-find_instants field now occurrence [] = refl
  answer-find_instants field now occurrence (c ∷ cs) = refl

  module _ (off : ℕ → ℕ) (lo hi : ℕ) where
    -- The instant is a whole minute of the zone, with the offset of a day before or after, at which the
    -- clock reads `w`.
    pub record Reads (w : WallClock) (at : ℕ) : Type 0 where
      pub from_lo : lo ≤ at
      pub to_hi : at < hi
      pub whole : at % minute_ms ≡ 0
      pub edge : (off at ≡ off (date_utc w - day_ms)) ⊎ (off at ≡ off (date_utc w + day_ms))
      pub reads : wall at ≡ w

    abbrev pub Earliest : WallClock → ℕ → Type 0
    Earliest w d = (wall d ≡ w) × ((at : ℕ) → Reads w at → d ≤ at)

    abbrev pub Latest : WallClock → ℕ → Type 0
    Latest w d = (wall d ≡ w) × ((at : ℕ) → Reads w at → at ≤ d)

    -- The instant that is meant: the only one, or the one of two that was picked.
    abbrev pub IsMeant : Option Occurrence → WallClock → ℕ → Type 0
    IsMeant none w d = Earliest w d × Latest w d
    IsMeant (some Occurrence.first) w d = Earliest w d
    IsMeant (some Occurrence.second) w d = Latest w d

    -- The instant by which a reading has gone by: the picked one, or the last.
    abbrev pub IsLast : Option Occurrence → WallClock → ℕ → Type 0
    IsLast none w d = Latest w d
    IsLast (some Occurrence.first) w d = Earliest w d
    IsLast (some Occurrence.second) w d = Latest w d

    -- What an answer says of the reading `w`.
    unfoldable pub IsAnswer : ℕ → Option Occurrence → WallClock → ScheduleResult → Type 0
    IsAnswer now occurrence w (ok d) = (now < d) × IsMeant occurrence w d
    IsAnswer now occurrence w (failed ErrorCode.past f cs) =
        (d : ℕ) × (d ≤ now) × IsLast occurrence w d
    IsAnswer now occurrence w (failed ErrorCode.nonexistent f cs) = (at : ℕ) → ¬ Reads w at
    IsAnswer now occurrence w (failed ErrorCode.ambiguous f cs) =
        (c d : ℕ) × (occurrence ≡ none)
        × (cs ≡ c ∷ d ∷ [])
        × (c < d)
        × (now < d)
        × Earliest w c
        × Latest w d
    IsAnswer now occurrence w (failed _ f cs) = Impossible

    module _ (w : WallClock) (now : ℕ) (field : Field) where
      -- One instant.
      choose_only :
          (occurrence : Option Occurrence) (c : ℕ)
          → Earliest w c
          → Latest w c
          → IsAnswer now occurrence w (if_ahead field now c)
      unfolding IsAnswer
      choose_only none c e l =
          if_cases (IsAnswer now none w) (leb c now) (λ g. (c, ground arith, l))
            (λ g. (ground arith, (e, l)))
      choose_only (some Occurrence.first) c e l =
          if_cases (IsAnswer now (some Occurrence.first) w) (leb c now) (λ g. (c, ground arith, e))
            (λ g. (ground arith, e))
      choose_only (some Occurrence.second) c e l =
          if_cases (IsAnswer now (some Occurrence.second) w) (leb c now) (λ g. (c, ground arith, l))
            (λ g. (ground arith, l))

      -- Two instants.
      choose_of_two :
          (occurrence : Option Occurrence) (c d : ℕ)
          → c < d
          → Earliest w c
          → Latest w d
          → IsAnswer now occurrence w (choose field now occurrence (c ∷ d ∷ []))
      unfolding IsAnswer
      choose_of_two none c d h e l =
          if_cases (IsAnswer now none w) (every_past now (c ∷ d ∷ [])) (λ g. (d, ground arith, l))
            (λ g. (c, d, refl, refl, h, ground arith, e, l))
      choose_of_two (some Occurrence.first) c d h e l =
          if_cases (IsAnswer now (some Occurrence.first) w) (every_past now (c ∷ d ∷ []))
            (λ g. (c, ground arith, e))
            (λ g.
              if_cases (IsAnswer now (some Occurrence.first) w) (leb c now)
                (λ k. (c, ground arith, e)) (λ k. (ground arith, e)))
      choose_of_two (some Occurrence.second) c d h e l =
          if_cases (IsAnswer now (some Occurrence.second) w) (every_past now (c ∷ d ∷ []))
            (λ g. (d, ground arith, l))
            (λ g.
              if_cases (IsAnswer now (some Occurrence.second) w) (leb d now)
                (λ k. (d, ground arith, l)) (λ k. (ground arith, l)))

      choose-IsAnswer :
          (occurrence : Option Occurrence) (cs : List ℕ)
          → IsShort cs
          → All (λ c. wall c ≡ w) cs
          → ((at : ℕ) → Reads w at → mem_id at cs ≡ true)
          → IsAnswer now occurrence w (choose field now occurrence cs)
      unfolding IsAnswer
      choose-IsAnswer occurrence [] h r found = λ at k. absurd (let m = found at k in ground arith)
      choose-IsAnswer occurrence (c ∷ []) h (r, rs) found =
          choose_only occurrence c (r, λ at k. let m = found at k in ground arith)
            (r, λ at k. let m = found at k in ground arith)
      choose-IsAnswer occurrence (c ∷ d ∷ []) h (r, (q, rs)) found =
          choose_of_two occurrence c d h (r, λ at k. let m = found at k in ground arith)
            (q, λ at k. let m = found at k in ground arith)
      choose-IsAnswer occurrence (c ∷ d ∷ e ∷ cs) h r found = elim h [ ]

    -- A date and a time that a clock can show are turned to an instant that is ahead, or refused for a
    -- reason that holds. The instant is the only one at which the user's clock reads them, or the
    -- earlier or the later of the two as was picked. A refusal as past: the picked one, or with no pick
    -- every one of them, is not ahead. As nonexistent: there is no such instant. As ambiguous: there are
    -- two, none was picked, and the later is ahead. (The zone's clock is known around the time, and the
    -- instants are whole minutes with the offset of a day before or after.)
    pub to_scheduled_at-IsAnswer :
        (zone : IsZone wall off lo hi) (date time : Text) (y m d h mi now : ℕ)
        (occurrence : Option Occurrence)
        → read_date date ≡ some (y, m, d)
        → read_time time ≡ some (h, mi)
        → IsAsked lo hi (reading_at (y, m, d) (h, mi))
        → IsAnswer now occurrence
            (reading_at (y, m, d) (h, mi))
            (to_scheduled_at wall date time now occurrence)
    unfolding to_scheduled_at
    to_scheduled_at-IsAnswer zone date time y m d h mi now occurrence a b asked =
        let w = reading_at (y, m, d) (h, mi) in
        let field = past_field wall date now in
        subst (IsAnswer now occurrence w)
          (sym (
            ap (answer field now occurrence)
              (resolve_read_parts date time y m d h mi a b asked.civil)
            ∙ answer-find_instants field now occurrence (instants_reading wall w)))
          (choose-IsAnswer w now field occurrence (instants_reading wall w)
            (instants_reading-IsShort wall w) (instants_read wall off lo hi zone w asked)
            (λ at k.
              instants_found wall off lo hi zone w asked at k.from_lo k.to_hi k.reads k.whole
                k.edge))

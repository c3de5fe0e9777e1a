-- ===== src/Schedule/Zone/Readings.antt =====
-- The instants at which a clock reads a given time are the ones that are found.
use ai_email_broadcast_hw.Base.{
  ℕ, ◌+◌, ◌-◌, ◌*◌, ◌%◌, ◌<◌, ◌≤◌, ◌≡◌, refl, sym, ap, subst, ◌∙◌, ◌⊎◌, ◌↔◌, inl, inr, true, List,
  [], ◌∷◌, arith, leb, ◌==◌, mem_id, All, Bool-cases, if_both, if_cases, ==_iff,
}
use ai_email_broadcast_hw.Base.Sort.{sort, insert, All-sort}
use ai_email_broadcast_hw.Schedule.Calendar.{WallClock, date_utc}
use ai_email_broadcast_hw.Schedule.Calendar.Laws.{IsCivil, date_utc_injective, date_utc_minute}
use ai_email_broadcast_hw.Schedule.Zone.{
  day_ms, minute_ms, whole_second, whole_minute, zone_offset, offsets_around, keep_in_force,
  instants_reading,
}

-- From `lo` to `hi`, what the wall reads is the instant and a whole number of minutes, `off`, less a
-- day; the offset is within a day of UTC and changes at whole minutes.
pub record IsZone (wall : ℕ → WallClock) (off : ℕ → ℕ) (lo hi : ℕ) : Type 0 where
  pub civil : (at : ℕ) → lo ≤ at → at < hi → IsCivil (wall at)
  pub ahead :
      (at : ℕ)
      → lo ≤ at
      → at < hi
      → date_utc (wall at) + day_ms ≡ whole_second at + off at * minute_ms
  pub bounded : (at : ℕ) → lo ≤ at → at < hi → off at ≤ 2880
  pub even : (at : ℕ) → lo ≤ whole_minute at → at < hi → off (whole_minute at) ≡ off at

-- A time that may be asked for: a reading to the minute, a day and more within the zone's bounds.
pub record IsAsked (lo hi : ℕ) (w : WallClock) : Type 0 where
  pub civil : IsCivil w
  pub whole : w.second ≡ 0
  pub after_lo : lo + day_ms ≤ date_utc w
  pub before_hi : date_utc w + day_ms < hi

mem_id-insert : (a x : ℕ) (xs : List ℕ) → mem_id a (insert leb x xs) ≡ mem_id a (x ∷ xs)
mem_id-insert a x [] = refl
mem_id-insert a x (y ∷ ys) = ground (arith, mem_id-insert a x ys)

mem_id-sort : (a : ℕ) (xs : List ℕ) → mem_id a (sort leb xs) ≡ mem_id a xs
unfolding sort
mem_id-sort a [] = refl
mem_id-sort a (x ∷ xs) = ground (arith, mem_id-insert a x (sort leb xs), mem_id-sort a xs)

All-mem_id : (P : ℕ → Type 0) (a : ℕ) (xs : List ℕ) → All P xs → mem_id a xs ≡ true → P a
All-mem_id P a [] h m = cc
All-mem_id P a (x ∷ xs) (h, hs) m = elim (Bool-cases (a == x)) [
  | inl e ↦ subst P (sym ((==_iff a x).0 e)) h
  | inr e ↦ All-mem_id P a xs hs (ground arith)
]

module _ (wall : ℕ → WallClock) (off : ℕ → ℕ) (lo hi : ℕ) (zone : IsZone wall off lo hi) where
  zone_offset-off : (at : ℕ) → lo ≤ at → at < hi → zone_offset wall at ≡ off at
  unfolding zone_offset
  zone_offset-off at a b = omega (arith, zone.ahead at a b)

  module _ (w : WallClock) (asked : IsAsked lo hi w) where
    candidate_reads :
        (o : ℕ)
        → o ≤ 2880
        → zone_offset wall (date_utc w + day_ms - o * minute_ms) ≡ o
        → wall (date_utc w + day_ms - o * minute_ms) ≡ w
    candidate_reads o small e =
        let c = date_utc w + day_ms - o * minute_ms in
        let (whole, late) = date_utc_minute w asked.whole in
        let a : lo ≤ c = omega (arith, asked.after_lo, small) in
        let b : c < hi = omega (arith, asked.before_hi, small, late) in
        date_utc_injective (wall c) w (zone.civil c a b) asked.civil
          (omega (arith, zone.ahead c a b, zone_offset-off c a b, e, small, whole, late))

    candidate : ℕ → ℕ
    candidate o = date_utc w + day_ms - o * minute_ms

    kept : List ℕ → List ℕ
    kept os = keep_in_force wall (date_utc w) os

    kept_read : (os : List ℕ) → All (λ o. o ≤ 2880) os → All (λ c. wall c ≡ w) (kept os)
    unfolding keep_in_force kept
    kept_read [] h = tt
    kept_read (o ∷ os) (h, hs) =
        let rest = kept_read os hs in
        if_cases (All (λ c. wall c ≡ w))
          (zone_offset wall (date_utc w + day_ms - o * minute_ms) == o)
          (λ e.
            if_both (All (λ c. wall c ≡ w))
              (mem_id (date_utc w + day_ms - o * minute_ms) (keep_in_force wall (date_utc w) os))
              rest
              (
                candidate_reads o h
                    ((==_iff (zone_offset wall (date_utc w + day_ms - o * minute_ms)) o).0 e),
                rest,
              ))
          (λ e. rest)

    kept_tail :
        (a o : ℕ) (os : List ℕ) → mem_id a (kept os) ≡ true → mem_id a (kept (o ∷ os)) ≡ true
    unfolding keep_in_force kept
    kept_tail a o os h =
        if_both (λ l. mem_id a l ≡ true)
          (zone_offset wall (date_utc w + day_ms - o * minute_ms) == o)
          (if_both (λ l. mem_id a l ≡ true)
            (mem_id (date_utc w + day_ms - o * minute_ms) (keep_in_force wall (date_utc w) os)) h
            (ground arith))
          h

    kept_head :
        (o : ℕ) (os : List ℕ)
        → zone_offset wall (candidate o) ≡ o
        → mem_id (candidate o) (kept (o ∷ os)) ≡ true
    unfolding keep_in_force kept candidate
    kept_head o os e =
        rw ((==_iff (zone_offset wall (date_utc w + day_ms - o * minute_ms)) o).1 e) (
          if_cases (λ l. mem_id (date_utc w + day_ms - o * minute_ms) l ≡ true)
            (mem_id (date_utc w + day_ms - o * minute_ms) (keep_in_force wall (date_utc w) os))
            (λ h. h) (λ h. ground arith))

    kept_if_in_force :
        (o : ℕ) (os : List ℕ)
        → mem_id o os ≡ true
        → zone_offset wall (candidate o) ≡ o
        → mem_id (candidate o) (kept os) ≡ true
    kept_if_in_force o [] m e = cc
    kept_if_in_force o (p ∷ os) m e = elim (Bool-cases (o == p)) [
      | inl q ↦
          subst (λ x. mem_id (candidate o) (kept (x ∷ os)) ≡ true) ((==_iff o p).0 q)
            (kept_head o os e)
      | inr q ↦ kept_tail (candidate o) p os (kept_if_in_force o os (ground arith) e)
    ]

    offsets_bounded : All (λ o. o ≤ 2880) (offsets_around wall (date_utc w))
    offsets_bounded =
        let W = date_utc w in
        let (whole, late) = date_utc_minute w asked.whole in
        let a : zone_offset wall (W - day_ms) ≤ 2880 =
          subst (λ o. o ≤ 2880)
            (sym (
              zone_offset-off (W - day_ms) (omega (arith, asked.after_lo))
                (omega (arith, asked.before_hi))))
            (zone.bounded (W - day_ms) (omega (arith, asked.after_lo))
              (omega (arith, asked.before_hi))) in
        let b : zone_offset wall (W + day_ms) ≤ 2880 =
          subst (λ o. o ≤ 2880)
            (sym (
              zone_offset-off (W + day_ms) (omega (arith, asked.after_lo))
                (omega (arith, asked.before_hi))))
            (zone.bounded (W + day_ms) (omega (arith, asked.after_lo))
              (omega (arith, asked.before_hi))) in
        if_both (All (λ o. o ≤ 2880))
          (zone_offset wall (W - day_ms) == zone_offset wall (W + day_ms)) (a, tt) (a, (b, tt))

    -- Each instant that is found reads as was asked.
    pub instants_read : All (λ c. wall c ≡ w) (instants_reading wall w)
    unfolding instants_reading kept
    instants_read =
        All-sort leb (λ c. wall c ≡ w) (kept (offsets_around wall (date_utc w)))
          (kept_read (offsets_around wall (date_utc w)) offsets_bounded)

    zone_offset-before : zone_offset wall (date_utc w - day_ms) ≡ off (date_utc w - day_ms)
    zone_offset-before =
        zone_offset-off (date_utc w - day_ms) (omega (arith, asked.after_lo))
          (omega (arith, asked.before_hi))

    zone_offset-after : zone_offset wall (date_utc w + day_ms) ≡ off (date_utc w + day_ms)
    zone_offset-after =
        zone_offset-off (date_utc w + day_ms) (omega (arith, asked.after_lo))
          (omega (arith, asked.before_hi))

    mem_id-offsets :
        (o : ℕ)
        → (o ≡ off (date_utc w - day_ms)) ⊎ (o ≡ off (date_utc w + day_ms))
        → mem_id o (offsets_around wall (date_utc w)) ≡ true
    mem_id-offsets o edge =
        if_cases (λ l. mem_id o l ≡ true)
          (zone_offset wall (date_utc w - day_ms) == zone_offset wall (date_utc w + day_ms))
          (λ e. ground (arith, zone_offset-before, zone_offset-after, edge))
          (λ e. ground (arith, zone_offset-before, zone_offset-after, edge))

    -- No instant is missed that reads so, to the minute, with the offset of a day before or after.
    pub instants_found :
        (at : ℕ)
        → lo ≤ at
        → at < hi
        → wall at ≡ w
        → at % minute_ms ≡ 0
        → (off at ≡ off (date_utc w - day_ms)) ⊎ (off at ≡ off (date_utc w + day_ms))
        → mem_id at (instants_reading wall w) ≡ true
    unfolding instants_reading candidate kept
    instants_found at a b reads whole edge =
        let same : candidate (off at) ≡ at =
          omega (arith, zone.ahead at a b, ap date_utc reads, whole) in
        let in_force : zone_offset wall (candidate (off at)) ≡ off at =
          ap (zone_offset wall) same ∙ zone_offset-off at a b in
        mem_id-sort at (kept (offsets_around wall (date_utc w)))
        ∙ subst (λ x. mem_id x (kept (offsets_around wall (date_utc w))) ≡ true) same
            (kept_if_in_force (off at) (offsets_around wall (date_utc w))
              (mem_id-offsets (off at) edge) in_force)

    -- The instants found for a reading are those at which the clock of the zone reads it, none when the
    -- clocks skip it and both when they go back over it. (The zone's clock is known from a day before
    -- to a day after, and the instant is a whole minute whose offset is that of a day before or after.)
    pub instants_reading_iff :
        (at : ℕ)
        → lo ≤ at
        → at < hi
        → at % minute_ms ≡ 0
        → (off at ≡ off (date_utc w - day_ms)) ⊎ (off at ≡ off (date_utc w + day_ms))
        → (mem_id at (instants_reading wall w) ≡ true) ↔ (wall at ≡ w)
    instants_reading_iff at a b whole edge = (
      All-mem_id (λ c. wall c ≡ w) at (instants_reading wall w) instants_read,
      λ reads. instants_found at a b reads whole edge,
    )

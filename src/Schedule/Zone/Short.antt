-- ===== src/Schedule/Zone/Short.antt =====
-- How many instants the search finds for a reading.
use ai_email_broadcast_hw.Base.{
  ℕ, suc, ◌+◌, ◌-◌, ◌*◌, ◌<◌, ◌≤◌, ◌≡◌, false, List, [], ◌∷◌, arith, leb, ◌==◌, if_cases, if_both,
  Impossible, length, mem_id,
}
use ai_email_broadcast_hw.Base.Sort.{sort}
use ai_email_broadcast_hw.Schedule.Calendar.{WallClock, date_utc}
use ai_email_broadcast_hw.Schedule.Zone.{
  day_ms, minute_ms, zone_offset, keep_in_force, instants_reading,
}

-- At most two instants, in order.
abbrev pub IsShort : List ℕ → Type 0
IsShort [] = Unit
IsShort (c ∷ []) = Unit
IsShort (c ∷ d ∷ []) = c < d
IsShort (c ∷ d ∷ e ∷ cs) = Impossible

sort-IsShort :
    (c : ℕ) (cs : List ℕ) → length cs ≤ 1 → mem_id c cs ≡ false → IsShort (sort leb (c ∷ cs))
unfolding sort
sort-IsShort c [] h m = tt
sort-IsShort c (d ∷ []) h m = ground arith
sort-IsShort c (d ∷ e ∷ cs) h m = absurd (omega arith)

sort_one-IsShort : (cs : List ℕ) → length cs ≤ 1 → IsShort (sort leb cs)
unfolding sort
sort_one-IsShort [] h = tt
sort_one-IsShort (c ∷ []) h = tt
sort_one-IsShort (c ∷ d ∷ cs) h = absurd (omega arith)

module _ (wall : ℕ → WallClock) where
  length-keep_in_force : (noon : ℕ) (os : List ℕ) → length (keep_in_force wall noon os) ≤ length os
  unfolding keep_in_force
  length-keep_in_force noon [] = omega arith
  length-keep_in_force noon (o ∷ os) =
      if_both (λ (l : List ℕ). length l ≤ suc (length os))
        (zone_offset wall (noon + day_ms - o * minute_ms) == o)
        (if_both (λ (l : List ℕ). length l ≤ suc (length os))
          (mem_id (noon + day_ms - o * minute_ms) (keep_in_force wall noon os))
          (omega (arith, length-keep_in_force noon os))
          (omega (arith, length-keep_in_force noon os)))
        (omega (arith, length-keep_in_force noon os))

  keep_in_force-IsShort :
      (noon o : ℕ) (os : List ℕ)
      → length os ≤ 1
      → IsShort (sort leb (keep_in_force wall noon (o ∷ os)))
  unfolding keep_in_force
  keep_in_force-IsShort noon o os h =
      let rest = keep_in_force wall noon os in
      let small : length rest ≤ 1 = omega (arith, length-keep_in_force noon os) in
      let candidate = noon + day_ms - o * minute_ms in
      if_both (λ l. IsShort (sort leb l)) (zone_offset wall candidate == o)
        (if_cases (λ l. IsShort (sort leb l)) (mem_id candidate rest)
          (λ m. sort_one-IsShort rest small) (λ m. sort-IsShort candidate rest small m))
        (sort_one-IsShort rest small)

  -- The search finds two instants at most, and in order.
  pub instants_reading-IsShort : (w : WallClock) → IsShort (instants_reading wall w)
  unfolding instants_reading
  instants_reading-IsShort w =
      let noon = date_utc w in
      if_both (λ os. IsShort (sort leb (keep_in_force wall noon os)))
        (zone_offset wall (noon - day_ms) == zone_offset wall (noon + day_ms))
        (keep_in_force-IsShort noon _ [] (omega arith))
        (keep_in_force-IsShort noon _ (_ ∷ []) (omega arith))

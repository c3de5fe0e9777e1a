-- ===== src/Audience/Dedupe.antt =====
-- The laws of `dedupeCandidates`: one entry an address, the first one, and nobody lost.
mod Tests
use ai_email_broadcast_hw.Base.{
  ℕ, zero, suc, ◌+◌, ◌≡◌, refl, sym, ap, ◌∙◌, ◌⊎◌, inl, inr, Bool, true, false, ◌||◌, Option, none,
  some, List, [], ◌∷◌, ◌++◌, Text, arith, if◌then◌else◌, All, All-mono, All-append, Bool-cases, any,
  any-append, count_where, length, length-append, text_eq, text_eq_comm, text_eq_refl,
}
use ai_email_broadcast_hw.Address.{normalize_email}
use ai_email_broadcast_hw.Audience.{
  Candidate, Unique, Deduped, has_key, is_empty, dedupe_step, dedupe_from, dedupe_candidates,
}

-- No two entries have one key.
abbrev pub DistinctKeys : List Unique → Type 0
DistinctKeys [] = Unit
DistinctKeys (u ∷ us) = (has_key u.email_normalized us ≡ false) × DistinctKeys us

-- An entry stands under the normal form of its own address, which is not empty.
abbrev pub IsKeyed : (Text → Text) → Unique → Type 0
IsKeyed lower u =
    (u.email_normalized ≡ normalize_email lower u.email) × (is_empty u.email_normalized ≡ false)

-- A candidate with no address is left out; any other has an entry.
abbrev pub IsCovered : (Text → Text) → List Unique → Candidate → Type 0
IsCovered lower us c =
    (is_empty (normalize_email lower c.email) ≡ true)
    ⊎ (has_key (normalize_email lower c.email) us ≡ true)

DistinctKeys-append :
    (us : List Unique) (u : Unique)
    → DistinctKeys us
    → has_key u.email_normalized us ≡ false
    → DistinctKeys (us ++ u ∷ [])
unfolding has_key
DistinctKeys-append [] u d h = (refl, tt)
DistinctKeys-append (x ∷ us) u (d, ds) h = (
  ground (
    arith,
    any-append (λ (v : Unique). text_eq v.email_normalized x.email_normalized) us (u ∷ []),
    text_eq_comm u.email_normalized x.email_normalized,
  ),
  DistinctKeys-append us u ds (ground arith),
)

pub record Sound (lower : Text → Text) (d : Deduped) : Type 0 where
  pub distinct : DistinctKeys d.unique
  pub keyed : All (IsKeyed lower) d.unique

module _ (lower : Text → Text) where
  abbrev pub key : Candidate → Text
  key c = normalize_email lower c.email

  step-Sound : (d : Deduped) (c : Candidate) → Sound lower d → Sound lower (dedupe_step lower d c)
  unfolding dedupe_step
  step-Sound d c v = elim (Bool-cases (is_empty (key c))) [
    | inl e ↦ rw e v
    | inr e ↦ rw e (elim (Bool-cases (has_key (key c) d.unique)) [
      | inl h ↦ rw h (record { distinct = v.distinct; keyed = v.keyed })
      | inr h ↦ rw h (record {
        distinct = DistinctKeys-append d.unique _ v.distinct h;
        keyed = All-append (IsKeyed lower) d.unique _ v.keyed ((refl, e), tt);
      })
    ])
  ]

  from-Sound :
      (d : Deduped) (cs : List Candidate) → Sound lower d → Sound lower (dedupe_from lower d cs)
  unfolding dedupe_from
  from-Sound d [] v = v
  from-Sound d (c ∷ cs) v = from-Sound (dedupe_step lower d c) cs (step-Sound d c v)

  dedupe_candidates-Sound : (cs : List Candidate) → Sound lower (dedupe_candidates lower cs)
  unfolding dedupe_candidates
  dedupe_candidates-Sound cs = from-Sound _ cs (record { distinct = tt; keyed = tt })

  step_grows :
      (k : Text) (d : Deduped) (c : Candidate)
      → has_key k d.unique ≡ true
      → has_key k (dedupe_step lower d c).unique ≡ true
  unfolding dedupe_step has_key
  step_grows k d c h = ground (
    arith,
    any-append (λ (v : Unique). text_eq v.email_normalized k) d.unique
        (record { candidate = c; email_normalized = key c } ∷ []),
  )

  step_covers : (d : Deduped) (c : Candidate) → IsCovered lower (dedupe_step lower d c).unique c
  unfolding dedupe_step has_key
  step_covers d c = ground (
    arith,
    any-append (λ (v : Unique). text_eq v.email_normalized (key c)) d.unique
        (record { candidate = c; email_normalized = key c } ∷ []),
    text_eq_refl (key c),
  )

  from_grows :
      (k : Text) (d : Deduped) (cs : List Candidate)
      → has_key k d.unique ≡ true
      → has_key k (dedupe_from lower d cs).unique ≡ true
  unfolding dedupe_from
  from_grows k d [] h = h
  from_grows k d (c ∷ cs) h = from_grows k (dedupe_step lower d c) cs (step_grows k d c h)

  from_covers :
      (d : Deduped) (cs : List Candidate) → All (IsCovered lower (dedupe_from lower d cs).unique) cs
  unfolding dedupe_from
  from_covers d [] = tt
  from_covers d (c ∷ cs) = (first (step_covers d c), from_covers (dedupe_step lower d c) cs)
    where
      first :
          IsCovered lower (dedupe_step lower d c).unique c
          → IsCovered lower (dedupe_from lower (dedupe_step lower d c) cs).unique c
      first (inl e) = inl e
      first (inr h) = inr (from_grows _ (dedupe_step lower d c) cs h)

  step_counts :
      (d : Deduped) (c : Candidate)
      → length (dedupe_step lower d c).unique
          + (dedupe_step lower d c).duplicates_removed
          + count_where (λ (x : Candidate). is_empty (key x)) (c ∷ [])
        ≡ length d.unique + d.duplicates_removed + 1
  unfolding dedupe_step
  step_counts d c =
      ground
        (arith, length-append d.unique (record { candidate = c; email_normalized = key c } ∷ []))

  from_counts :
      (d : Deduped) (cs : List Candidate)
      → length (dedupe_from lower d cs).unique
          + (dedupe_from lower d cs).duplicates_removed
          + count_where (λ (x : Candidate). is_empty (key x)) cs
        ≡ length d.unique + d.duplicates_removed + length cs
  unfolding dedupe_from
  from_counts d [] = omega arith
  from_counts d (c ∷ cs) = ground (arith, step_counts d c, from_counts (dedupe_step lower d c) cs)

  -- Each entry that remains has a key of its own, which is the normal form of its address and is not
  -- empty; nobody with an address is lost; and every candidate is counted once: as an entry, as a
  -- duplicate, or as having no address.
  pub dedupe_candidates_complete :
      (cs : List Candidate)
      → Sound lower (dedupe_candidates lower cs)
        × All (IsCovered lower (dedupe_candidates lower cs).unique) cs
        × (length (dedupe_candidates lower cs).unique
              + (dedupe_candidates lower cs).duplicates_removed
              + count_where (λ (c : Candidate). is_empty (normalize_email lower c.email)) cs
            ≡ length cs)
  unfolding dedupe_candidates
  dedupe_candidates_complete cs = (
    dedupe_candidates-Sound cs,
    from_covers _ cs,
    omega (arith, from_counts (record { unique = []; duplicates_removed = 0 }) cs),
  )

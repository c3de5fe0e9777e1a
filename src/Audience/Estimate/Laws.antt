-- ===== src/Audience/Estimate/Laws.antt =====
-- The estimate of the list page is what the preview of a campaign counts, contact by contact.
mod Tests
use ai_email_broadcast_hw.Base.{
  ℕ, zero, suc, ◌+◌, ◌-◌, ◌≤◌, ◌≡◌, refl, sym, ap, subst, ◌∙◌, inl, inr, Bool, true, false, not,
  ◌&&◌, ◌||◌, Option, none, some, List, [], ◌∷◌, ◌++◌, map, Text, arith, ◌==◌, leb, if◌then◌else◌,
  if_both, Bool-cases, Option-cases, All, All-mono, any, any-append, length, length-select,
  count_where, select, mem_id, text_eq, text_eq→eq, text_eq_comm, text_eq_refl,
}
use ai_email_broadcast_hw.Base.Sort.{insert, sort, All-sort}
use ai_email_broadcast_hw.Address.{normalize_email}
use ai_email_broadcast_hw.Store.{Store, Contact, Membership, CampaignList}
use ai_email_broadcast_hw.Queue.{is_suppressed, filter_suppressed}
use ai_email_broadcast_hw.Audience.{
  Runtime, Candidate, Unique, Deduped, has_key, is_empty, dedupe_step, dedupe_from,
  dedupe_candidates, find_contact, members_of, load_candidates, preview_audience, lists_of,
}
use ai_email_broadcast_hw.Audience.Dedupe.{DistinctKeys, Sound, dedupe_candidates_complete}
use ai_email_broadcast_hw.Audience.Estimate.{
  count_distinct, joined, estimate_for, estimate_recipients,
}
use ai_email_broadcast_hw.Audience.Estimate.Join.{
  any-cong, any-insert, any-sort, any-map, any-joined, All-members_of,
}
use ai_email_broadcast_hw.Audience.Estimate.Distinct.{
  has, count_distinct_same, AllDistinct, count_distinct-AllDistinct, has-select, AllDistinct-select,
}

-- A contact as the import and the routes write it: under the normal form of its address.
pub record IsKept (lower : Text → Text) (c : Contact) : Type 0 where
  pub keyed : c.email_normalized ≡ normalize_email lower c.email
  pub addressed : is_empty c.email_normalized ≡ false

module _ (lower : Text → Text) where
  abbrev key : Candidate → Text
  key c = normalize_email lower c.email

  -- The candidate has an address, of this key.
  abbrev is_of : Text → Candidate → Bool
  is_of k c = not (is_empty (key c)) && text_eq (key c) k

  has_key-step :
      (k : Text) (d : Deduped) (c : Candidate)
      → has_key k (dedupe_step lower d c).unique ≡ (has_key k d.unique || is_of k c)
  unfolding dedupe_step has_key
  has_key-step k d c = elim (Bool-cases (text_eq (key c) k)) [
    | inl e ↦ ground (
      arith,
      e,
      ap (λ x. has_key x d.unique) (text_eq→eq (key c) k e),
      any-append (λ (v : Unique). text_eq v.email_normalized k) d.unique
          (record { candidate = c; email_normalized = key c } ∷ []),
    )
    | inr e ↦ ground (
      arith,
      e,
      any-append (λ (v : Unique). text_eq v.email_normalized k) d.unique
          (record { candidate = c; email_normalized = key c } ∷ []),
    )
  ]

  has_key-from :
      (k : Text) (d : Deduped) (cs : List Candidate)
      → has_key k (dedupe_from lower d cs).unique ≡ (has_key k d.unique || any (is_of k) cs)
  unfolding dedupe_from
  has_key-from k d [] = ground arith
  has_key-from k d (c ∷ cs) =
      ground (arith, has_key-step k d c, has_key-from k (dedupe_step lower d c) cs)

abbrev email_of : Contact → Text
email_of c = c.email_normalized

abbrev candidate_of : Contact → Candidate
candidate_of c = record {
  contact_id = some c.id;
  email = c.email;
  first_name = c.first_name;
  last_name = c.last_name;
  custom_fields = c.custom_fields;
}

candidate_of_kept :
    (lower : Text → Text) (k : Text) (c : Contact)
    → IsKept lower c
    → is_of lower k (candidate_of c) ≡ text_eq c.email_normalized k
candidate_of_kept lower k c h = rw (← h.keyed) (ground (arith, h.addressed))

has-candidates :
    (lower : Text → Text) (k : Text) (cs : List Contact)
    → All (IsKept lower) cs
    → any (is_of lower k) (map candidate_of cs) ≡ has k (map email_of cs)
has-candidates lower k cs h =
    any-map (is_of lower k) candidate_of cs
    ∙ any-cong _ _ cs (All-mono _ _ cs (λ c. candidate_of_kept lower k c) h)
    ∙ sym (any-map (λ t. text_eq t k) email_of cs)

map-select :
    (p : Text → Bool) (cs : List Contact)
    → map email_of (select (λ c. p (email_of c)) cs) ≡ select p (map email_of cs)
map-select p [] = refl
map-select p (c ∷ cs) = ground (arith, map-select p cs)

length-not :
    (p : Text → Bool) (ts : List Text)
    → length (select (λ t. not (p t)) ts) + length (select p ts) ≡ length ts
length-not p [] = refl
length-not p (t ∷ ts) = ground (arith, length-not p ts)

abbrev keys_of : List Unique → List Text
keys_of us = map (λ (u : Unique). u.email_normalized) us

has-keys_of : (k : Text) (us : List Unique) → has k (keys_of us) ≡ has_key k us
unfolding has_key
has-keys_of k us = any-map (λ t. text_eq t k) (λ (u : Unique). u.email_normalized) us

AllDistinct-keys_of : (us : List Unique) → DistinctKeys us → AllDistinct (keys_of us)
AllDistinct-keys_of [] d = tt
AllDistinct-keys_of (u ∷ us) (d, ds) =
    (has-keys_of u.email_normalized us ∙ d, AllDistinct-keys_of us ds)

length-keys_of : (us : List Unique) → length (keys_of us) ≡ length us
length-keys_of [] = refl
length-keys_of (u ∷ us) = ap suc (length-keys_of us)

module _ (rt : Runtime) (i : ℕ) (s : Store) (kept : All (IsKept rt.lower) s.contacts) where
  abbrev lists : List ℕ
  lists = lists_of i s.campaign_lists

  abbrev found : List Unique
  found = (dedupe_candidates rt.lower (load_candidates lists s)).unique

  abbrev welcome : Text → Bool
  welcome t = not (is_suppressed s.suppressions t)

  -- The keys of the preview are the addresses of the join.
  has-found :
      (k : Text)
      → has k (keys_of found)
        ≡ has k (
            map email_of
              (joined (select (λ l. l.campaign_id == i) s.campaign_lists) s.contacts s.members))
  unfolding dedupe_candidates load_candidates has_key lists_of
  has-found k =
      let by_time : Contact → Contact → Bool = λ a b. leb a.created_at b.created_at in
      let all = members_of lists s.contacts s.members in
      let same : Contact → Bool = λ c. text_eq c.email_normalized k in
      has-keys_of k found
      ∙ has_key-from rt.lower k (record { unique = []; duplicates_removed = 0 })
          (map candidate_of (sort by_time all))
      ∙ has-candidates rt.lower k (sort by_time all) (
          All-sort by_time (IsKept rt.lower) all
            (All-members_of s.contacts (IsKept rt.lower) lists s.members kept))
      ∙ any-map (λ t. text_eq t k) email_of (sort by_time all)
      ∙ any-sort by_time same all
      ∙ sym
          (any-joined s.contacts same (select (λ l. l.campaign_id == i) s.campaign_lists) s.members)
      ∙ sym (any-map (λ t. text_eq t k) email_of _)

  final_recipients-found :
      (preview_audience rt lists s).final_recipients ≡ length (select welcome (keys_of found))
  unfolding preview_audience filter_suppressed
  final_recipients-found =
      omega (arith, length-not (is_suppressed s.suppressions) (keys_of found), length-keys_of found)

  estimate_for-preview :
      estimate_for i s ≡ (preview_audience rt (lists_of i s.campaign_lists) s).final_recipients
  unfolding estimate_for lists_of
  estimate_for-preview =
      let rows = joined (select (λ l. l.campaign_id == i) s.campaign_lists) s.contacts s.members in
      let distinct = AllDistinct-select welcome (keys_of found) (
        AllDistinct-keys_of found
          ((dedupe_candidates_complete rt.lower (load_candidates lists s)).0.distinct)) in
      ap count_distinct (map-select welcome rows)
      ∙ count_distinct_same (length (select welcome (map email_of rows)))
          (select welcome (map email_of rows)) (select welcome (keys_of found)) (omega arith)
          (λ k.
            has-select welcome k (map email_of rows)
            ∙ ap (λ b. b && welcome k) (sym (has-found k))
            ∙ sym (has-select welcome k (keys_of found)))
      ∙ count_distinct-AllDistinct (select welcome (keys_of found)) distinct
      ∙ sym final_recipients-found

  -- The estimate that the list page shows for a campaign is the number of final recipients that its
  -- preview counts: neither counts a person twice who is in several of its lists, or one who is
  -- suppressed; and campaigns that were not asked for have none. (Each contact is kept under the normal
  -- form of its address, which is not empty.)
  pub estimate_recipients-preview :
      (ids : List ℕ)
      → estimate_recipients ids s i ≡ (
          if mem_id i ids
          then some (preview_audience rt (lists_of i s.campaign_lists) s).final_recipients
          else none)
  unfolding estimate_recipients
  estimate_recipients-preview ids =
      ap (λ n. if mem_id i ids then some n else none) estimate_for-preview

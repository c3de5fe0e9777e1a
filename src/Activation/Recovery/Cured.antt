-- ===== src/Activation/Recovery/Cured.antt =====
-- A repair that nothing disturbs leaves none of the campaigns that it found without a queue.
use ai_email_broadcast_hw.Base.{
  ℕ, suc, ◌<◌, ◌≡◌, refl, sym, ◌∙◌, ap, inl, inr, Bool, true, false, not, ◌&&◌, ◌||◌, List, [], ◌∷◌,
  ◌++◌, arith, ◌==◌, All, All-mono, All-zip, All-true, All-update_cases, Bool-cases, Option-cases,
  update_where, length, mem_id, any, any-append, if_both, if_cases, count_where, subst, ==_iff,
}
use ai_email_broadcast_hw.Store.{Store, Campaign, Recipient}
use ai_email_broadcast_hw.Store.Status.{CampaignStatus, campaign_is}
use ai_email_broadcast_hw.Store.Lookup.{none_of_first}
use ai_email_broadcast_hw.Queue.{has_queue}
use ai_email_broadcast_hw.Audience.{Runtime, generate_recipients, belongs_to}
use ai_email_broadcast_hw.Audience.Generate.{generate_recipients-Adds, total-generate_recipients}
use ai_email_broadcast_hw.Audience.Statuses.{generate_recipients-campaigns}
use ai_email_broadcast_hw.Campaign.{close_campaign}
use ai_email_broadcast_hw.Activation.Cycle.{Moment}
use ai_email_broadcast_hw.Activation.Cycle.Complete.{Calm}
use ai_email_broadcast_hw.Activation.Recovery.{
  RecoveryOutcome, hold, repair, try_repair, repair_all, RecoveryResult, stuck_page,
  recover_stuck_campaigns, no_recovery, ends_repair,
}

-- QUEUED without a queue, however recently.
abbrev pub lacks_queue : List Recipient → Campaign → Bool
lacks_queue rs c = campaign_is c.status CampaignStatus.queued && not (has_queue c.id rs)

-- None of these campaigns is QUEUED without a queue.
abbrev pub Cured : List ℕ → Store → Type 0
Cured is s = All (λ c. mem_id c.id is ≡ true → lacks_queue s.recipients c ≡ false) s.campaigns

has_queue_grows :
    (j : ℕ) (rs added qs : List Recipient)
    → qs ≡ rs ++ added
    → has_queue j rs ≡ true
    → has_queue j qs ≡ true
unfolding has_queue
has_queue_grows j rs added qs e h =
    ap (any (λ r. r.campaign_id == j)) e
    ∙ any-append (λ r. r.campaign_id == j) rs added
    ∙ ground arith

has_queue-of_count :
    (i : ℕ) (rs : List Recipient) → 0 < count_where (belongs_to i) rs → has_queue i rs ≡ true
unfolding has_queue belongs_to
has_queue-of_count i [] h = absurd (omega arith)
has_queue-of_count i (r ∷ rs) h = ground (arith, has_queue-of_count i rs)

same_queue :
    (i j : ℕ) (rs : List Recipient)
    → (j == i) ≡ true
    → has_queue i rs ≡ true
    → has_queue j rs ≡ true
same_queue i j rs e h = subst (λ k. has_queue k rs ≡ true) (sym ((==_iff j i).0 e)) h

module _ (rt : Runtime) (m : Moment) (i : ℕ) (is : List ℕ) (s : Store)
    (unlocked : (j : ℕ) → m.locked j ≡ false) (cured : Cured is s) where
  abbrev generated : Store
  generated = (generate_recipients rt m.now i s).1

  -- The other campaigns, after the rows have been written.
  kept :
      (c : Campaign)
      → lacks_queue s.recipients c ≡ false
      → lacks_queue generated.recipients c ≡ false
  kept c h =
      let added = generate_recipients-Adds rt m.now i s in
      elim (Bool-cases (has_queue c.id s.recipients)) [
        | inl e ↦ ground (arith, has_queue_grows c.id s.recipients added.0 _ added.1 e)
        | inr e ↦ ground arith
      ]

  rows_given :
      ((c : Campaign) → (c.id == i) ≡ true → lacks_queue generated.recipients c ≡ false)
      → Cured (i ∷ is) generated
  rows_given ours = rw (generate_recipients-campaigns rt m.now i s) (
      All-update_cases _ _ (λ c. c.id == i) _ s.campaigns (λ c e k n. ours c e)
        (λ c e k n. kept c (k (ground arith))) cured)

  rows_closed : Cured (i ∷ is) (record generated {
    campaigns = update_where (λ c. c.id == i) (close_campaign m.now) generated.campaigns;
  })
  unfolding close_campaign
  rows_closed =
      All-update_cases (λ c. mem_id c.id is ≡ true → lacks_queue generated.recipients c ≡ false) _
        (λ c. c.id == i) (close_campaign m.now) generated.campaigns (λ c e k n. refl)
        (λ c e k n. k (ground arith))
        (rw (generate_recipients-campaigns rt m.now i s) (
          All-update_cases _ _ (λ c. c.id == i) _ s.campaigns (λ c e k n. kept c (k n))
            (λ c e k n. kept c (k n)) cured))

  skipped_row :
      (d : Campaign)
      → has_queue i s.recipients ≡ true
      → (mem_id d.id is ≡ true → lacks_queue s.recipients d ≡ false)
      → mem_id d.id (i ∷ is) ≡ true
      → lacks_queue s.recipients d ≡ false
  skipped_row d h k n = elim (Bool-cases (d.id == i)) [
    | inl e ↦ ground (arith, same_queue i d.id s.recipients e h)
    | inr e ↦ k (ground arith)
  ]

  given :
      (d : Campaign)
      → 0 < (generate_recipients rt m.now i s).0.total
      → (d.id == i) ≡ true
      → lacks_queue generated.recipients d ≡ false
  given d h e =
      let t = total-generate_recipients rt m.now i s in
      let q = has_queue-of_count i generated.recipients (omega arith) in
      ground (arith, same_queue i d.id generated.recipients e q)

  repair-Cured : Cured (i ∷ is) (repair rt m i s).1
  unfolding repair hold
  repair-Cured = elim (Option-cases (hold i m.locked s.campaigns)) [
    | inl e ↦
        rw (e, repair)
          (All-zip _ _ _ s.campaigns (λ c a b n. ground (arith, a, b, unlocked c.id)) cured
            (none_of_first _ s.campaigns e))
    | inr (c, e) ↦
        let g = generate_recipients rt m.now i s in
        let P = λ (x : RecoveryOutcome × Store). Cured (i ∷ is) x.1 in
        rw (e, repair)
          (if_cases P (has_queue i s.recipients)
            (λ h. All-mono _ _ s.campaigns (λ d k n. skipped_row d h k n) cured)
            (λ h.
              if_cases P (g.0.total == 0) (λ z. rows_closed)
                (λ z. rows_given (λ d e. given d (ground arith) e))))
  ]

abbrev onto : List ℕ → List ℕ → List ℕ
onto [] done = done
onto (i ∷ is) done = onto is (i ∷ done)

mem_id-onto : (j : ℕ) (is done : List ℕ) → mem_id j (onto is done) ≡ (mem_id j is || mem_id j done)
mem_id-onto j [] done = refl
mem_id-onto j (i ∷ is) done = ground (arith, mem_id-onto j is (i ∷ done))

ends_repair-repair :
    (rt : Runtime) (m : Moment) (i : ℕ) (s : Store) → ends_repair (repair rt m i s).0 ≡ false
unfolding repair
ends_repair-repair rt m i s = elim (Option-cases (hold i m.locked s.campaigns)) [
  | inl e ↦ rw (e, repair) refl
  | inr (c, e) ↦
      let P = λ (x : RecoveryOutcome × Store). ends_repair x.0 ≡ false in
      rw (e, repair)
        (if_both P (has_queue i s.recipients) refl
          (if_both P ((generate_recipients rt m.now i s).0.total == 0) refl refl))
]

try_repair-Cured :
    (rt : Runtime) (m : Moment) (clock i : ℕ) (is : List ℕ) (s : Store)
    → Calm clock m
    → Cured is s
    → let x = try_repair rt m i (m.meanwhile s) in (ends_repair x.0 ≡ false) × Cured (i ∷ is) x.1
unfolding try_repair
try_repair-Cured rt m clock i is s calm h =
    let h' : Cured is (m.meanwhile s) = subst (Cured is) (sym (calm.alone s)) h in
    rw (calm.works, try_repair)
      (
        ends_repair-repair rt m i (m.meanwhile s),
        repair-Cured rt m i is (m.meanwhile s) calm.unlocked h',
      )

repair_all-Cured :
    (rt : Runtime) (w : ℕ → Moment) (clock n : ℕ) (is done : List ℕ) (r : RecoveryResult)
    (s : Store)
    → ((k : ℕ) → Calm clock (w k))
    → Cured done s
    → Cured (onto is done) (repair_all rt w n is r s).1
unfolding repair_all try_repair
repair_all-Cured rt w clock n [] done r s calm h = h
repair_all-Cured rt w clock n (i ∷ is) done r s calm h =
    let m = w n in
    let one = try_repair-Cured rt m clock i done s (calm n) h in
    let x = try_repair rt m i (m.meanwhile s) in
    let P = λ (y : RecoveryResult × Store). Cured (onto is (i ∷ done)) y.1 in
    if_cases P m.late (λ l. absurd (late_not (calm n) l))
      (λ l.
        if_cases P (ends_repair x.0) (λ k. absurd (differ k one.0))
          (λ k. repair_all-Cured rt w clock (suc n) is (i ∷ done) _ x.1 calm one.1))
  where
    differ : {b : Bool} → b ≡ true → b ≡ false → ⊥
    differ k l = cc

    late_not : Calm clock (w n) → (w n).late ≡ true → ⊥
    late_not c l = differ l c.in_time

-- A repair that nothing disturbs leaves none of the stuck campaigns that it found QUEUED without a
-- queue.
pub recover_stuck_campaigns-Cured :
    (rt : Runtime) (page : Moment) (w : ℕ → Moment) (clock grace limit : ℕ) (s : Store)
    → Calm clock page
    → ((k : ℕ) → Calm clock (w k))
    → Cured (stuck_page grace page.now limit s) (recover_stuck_campaigns rt page w grace limit s).1
unfolding recover_stuck_campaigns
recover_stuck_campaigns-Cured rt page w clock grace limit s peace calm =
    let s' = page.meanwhile s in
    let is = stuck_page grace page.now limit s' in
    let cured =
      repair_all-Cured rt w clock 0 is [] (record no_recovery { found = length is }) s' calm
        (All-true _ s'.campaigns (λ c m. absurd (cc))) in
    rw (peace.works, recover_stuck_campaigns)
      (subst
        (λ x.
          Cured (stuck_page grace page.now limit x)
            (repair_all rt w 0 is (record no_recovery { found = length is }) s').1)
        (peace.alone s) (All-mono _ _ _ (λ c k m. k (mem_id-onto c.id is [] ∙ ground arith)) cured))

-- ===== src/Activation/Handover.antt =====
-- `queue_campaign` does all of its work or none of it.
mod Tests
use ai_email_broadcast_hw.Base.{
  ℕ, zero, suc, ◌<◌, ◌≡◌, refl, sym, ◌∙◌, ◌⊎◌, inl, inr, Bool, true, false, not, ◌&&◌, Option, none,
  some, List, [], ◌∷◌, is_some, arith, ◌==◌, if◌then◌else◌, All, Bool-cases, Option-cases, select,
  update_where, count_where,
}
use ai_email_broadcast_hw.Store.{Store, Campaign, Recipient, find_campaign}
use ai_email_broadcast_hw.Store.Status.{CampaignStatus, campaign_is}
use ai_email_broadcast_hw.Audience.{Runtime, GenerateResult, generate_recipients, belongs_to}
use ai_email_broadcast_hw.Audience.Statuses.{
  generate_recipients-AllHaveStatus, generate_recipients-find,
}
use ai_email_broadcast_hw.Store.Lookup.{
  AllHaveStatus, update_sets_status, is_some-find-update, is_some-find_of_select,
}
use ai_email_broadcast_hw.Activation.{
  QueueSource, QueueResult, queued, unavailable, no_recipients, claim_campaign, enqueue_campaign,
  queue_campaign,
}

-- The store inside the transaction, once the status has been written.
abbrev pub taken_over : ℕ → ℕ → Store → Store
taken_over now i s = record s {
  campaigns = update_where (λ c. c.id == i) (enqueue_campaign now) s.campaigns;
}

total_counts :
    (rt : Runtime) (now i : ℕ) (s : Store)
    → (generate_recipients rt now i s).0.total
      ≡ count_where (belongs_to i) (generate_recipients rt now i s).1.recipients
unfolding generate_recipients
total_counts rt now i s = refl

found :
    (i : ℕ) (source : QueueSource) (clock : ℕ) (locked : ℕ → Bool) (cs : List Campaign)
    {c : Campaign}
    → claim_campaign i source clock locked cs ≡ some c
    → is_some (find_campaign i cs) ≡ true
unfolding claim_campaign
found i source clock locked cs e = is_some-find_of_select i _ cs (λ c m. ground arith) e

-- What may be said of an outcome and the stores around it.
abbrev pub Outcome : ℕ → Store → QueueResult → Store → Type 0
Outcome i s (queued at g) s' =
    AllHaveStatus i CampaignStatus.queued s'.campaigns
    × (is_some (find_campaign i s'.campaigns) ≡ true)
    × (0 < count_where (belongs_to i) s'.recipients)
    × (g.total ≡ count_where (belongs_to i) s'.recipients)
Outcome i s unavailable s' = s' ≡ s
Outcome i s no_recipients s' = s' ≡ s

module _ (rt : Runtime) (now clock : ℕ) (locked : ℕ → Bool) (i : ℕ) (source : QueueSource)
    (s : Store) where
  -- A campaign that is handed over is QUEUED and has a queue; in any other case nothing has changed.
  pub queue_campaign-Outcome :
      Outcome i s
        (queue_campaign rt now clock locked i source s).0
        (queue_campaign rt now clock locked i source s).1
  unfolding queue_campaign
  queue_campaign-Outcome = elim (Option-cases (claim_campaign i source clock locked s.campaigns)) [
    | inl e ↦ rw (e, queue_campaign) refl
    | inr (c, e) ↦
        rw (e, queue_campaign)
          (elim (Bool-cases ((generate_recipients rt now i (taken_over now i s)).0.total == 0)) [
            | inl k ↦ rw k refl
            | inr k ↦ rw k (
              generate_recipients-AllHaveStatus rt now i i CampaignStatus.queued
                  (taken_over now i s)
                  (update_sets_status i CampaignStatus.queued (λ c. c.id == i) _ s.campaigns
                    (λ c. refl) (λ c a b. cc)),
              generate_recipients-find rt now i i (taken_over now i s)
                  ∙ is_some-find-update i _ _ s.campaigns (λ x. refl)
                  ∙ found i source clock locked s.campaigns e,
              positive k,
              total_counts rt now i (taken_over now i s),
            )
          ])
  ]
    where
      positive :
          ((generate_recipients rt now i (taken_over now i s)).0.total == 0) ≡ false
          → 0
            < count_where
                (belongs_to i)
                (generate_recipients rt now i (taken_over now i s)).1.recipients
      positive k = ground (arith, total_counts rt now i (taken_over now i s))

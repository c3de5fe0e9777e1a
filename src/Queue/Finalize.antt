-- ===== src/Queue/Finalize.antt =====
-- The end of a campaign: `finalizeCompletedCampaigns`.
mod Tests
use ai_email_broadcast_hw.Base.{
  ℕ, ◌≡◌, refl, ◌⊎◌, inl, inr, Bool, true, false, ◌&&◌, ◌||◌, List, [], ◌∷◌, arith, ◌==◌, All,
  All-true, All-false-update, Pointwise, Pointwise-update_where, update_where,
}
use ai_email_broadcast_hw.Store.{Store, Campaign, Recipient}
use ai_email_broadcast_hw.Store.Status.{CampaignStatus, campaign_is}
use ai_email_broadcast_hw.Queue.{
  has_queue, has_pending, is_finished, complete_campaign, finalize_completed_campaigns,
}

-- A campaign stays as it was, or it was QUEUED or SENDING with nothing pending, and is COMPLETED.
abbrev pub Completes : ℕ → List Recipient → Campaign → Campaign → Type 0
Completes now rs c d =
    (d ≡ c)
    ⊎ ((d ≡ complete_campaign now c)
        × (has_pending c.id rs ≡ false)
        × ((campaign_is c.status CampaignStatus.queued
              || campaign_is c.status CampaignStatus.sending)
            ≡ true))

finished_once :
    (now : ℕ) (rs : List Recipient) (c : Campaign)
    → is_finished rs (complete_campaign now c) ≡ false
unfolding is_finished complete_campaign
finished_once now rs c = refl

completes :
    (now : ℕ) (rs : List Recipient) (c : Campaign)
    → is_finished rs c ≡ true
    → Completes now rs c (complete_campaign now c)
unfolding is_finished
completes now rs c h = inr (refl, ground arith, ground arith)

module _ (now : ℕ) (s : Store) where
  -- It completes only campaigns that were QUEUED or SENDING with no recipient pending, leaves none
  -- that is finished, and touches no recipient.
  pub finalize_completed_campaigns_lem :
      let s' = (finalize_completed_campaigns now s).1 in
      Pointwise (Completes now s.recipients) s.campaigns s'.campaigns
      × All (λ c. is_finished s'.recipients c ≡ false) s'.campaigns
      × (s'.recipients ≡ s.recipients)
  unfolding finalize_completed_campaigns
  finalize_completed_campaigns_lem = (
    Pointwise-update_where (Completes now s.recipients) (is_finished s.recipients)
        (complete_campaign now) s.campaigns (λ c h. inl refl)
        (All-true _ s.campaigns (λ c. completes now s.recipients c)),
    All-false-update (is_finished s.recipients) (is_finished s.recipients) (complete_campaign now)
        s.campaigns (λ c h. finished_once now s.recipients c) (All-true _ s.campaigns (λ c h. h)),
    refl,
  )

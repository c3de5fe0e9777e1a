-- ===== src/Queue/Claim/Taken.antt =====
-- What a claim does to each row of the table, column by column.
use ai_email_broadcast_hw.Base.{
  ℕ, ◌+◌, ◌*◌, ◌≤◌, ◌≡◌, refl, ◌⊎◌, inl, inr, Bool, true, false, not, ◌&&◌, leb→le, String, Option,
  none, some, arith, Bool-cases, Pointwise, Pointwise-mono,
}
use ai_email_broadcast_hw.Base.Keys.{Distinct}
use ai_email_broadcast_hw.Store.{Store, Campaign, Recipient, find_campaign}
use ai_email_broadcast_hw.Store.Status.{
  CampaignStatus, DeliveryStatus, campaign_is, campaign_is→eq, delivery_is→eq,
}
use ai_email_broadcast_hw.Queue.{Config, is_sendable, is_claimable, claim_row, claim_recipients}
use ai_email_broadcast_hw.Queue.Claim.{ids, ClaimsRow, claim-Pointwise}

-- The row was waiting and due in a campaign that is being sent, nobody held it, and it is now leased
-- to the worker with one attempt more.
pub record IsTaken (cfg : Config) (worker : String) (now : ℕ) (locked : ℕ → Bool) (s : Store)
    (r q : Recipient) : Type 0 where
  pub was_queued : r.delivery_status ≡ DeliveryStatus.queued
  pub was_due : r.next_attempt_at ≤ now
  pub campaign : Campaign
  pub of_campaign : find_campaign r.campaign_id s.campaigns ≡ some campaign
  pub may_send :
      (campaign.status ≡ CampaignStatus.queued) ⊎ (campaign.status ≡ CampaignStatus.sending)
  pub was_free : locked r.id ≡ false
  pub now_sending : q.delivery_status ≡ DeliveryStatus.sending
  pub one_more : q.attempts ≡ r.attempts + 1
  pub leased_until : q.lease_expires_at ≡ some (now + cfg.lease_seconds * 1000)
  pub held_by : q.claimed_by ≡ some worker
  pub same_id : q.id ≡ r.id
  pub same_campaign : q.campaign_id ≡ r.campaign_id
  pub same_email : q.email ≡ r.email
  pub same_key : q.email_normalized ≡ r.email_normalized

sendable_campaign :
    (c : Option Campaign)
    → is_sendable c ≡ true
    → (d : Campaign) × (c ≡ some d)
      × ((d.status ≡ CampaignStatus.queued) ⊎ (d.status ≡ CampaignStatus.sending))
unfolding is_sendable
sendable_campaign none h = cc
sendable_campaign (some d) h = elim (Bool-cases (campaign_is d.status CampaignStatus.queued)) [
  | inl e ↦ (d, refl, inl (campaign_is→eq d.status _ e))
  | inr e ↦ (d, refl, inr (campaign_is→eq d.status _ (ground arith)))
]

all_four :
    (a b c d : Bool)
    → (a && b && c && not d) ≡ true
    → (a ≡ true) × (b ≡ true) × (c ≡ true) × (d ≡ false)
all_four a b c d h = ground arith

module _ (cfg : Config) (worker : String) (limit now : ℕ) (locked : ℕ → Bool) (s : Store) where
  claim_row-IsTaken :
      (r : Recipient)
      → is_claimable now locked s.campaigns r ≡ true
      → IsTaken cfg worker now locked s r (claim_row cfg worker now r)
  unfolding is_claimable claim_row
  claim_row-IsTaken r h =
      let parts =
        all_four _ _ (is_sendable (find_campaign r.campaign_id s.campaigns)) (locked r.id) h in
      let found = sendable_campaign (find_campaign r.campaign_id s.campaigns) parts.2 in
      record {
        was_queued = delivery_is→eq r.delivery_status _ parts.0;
        was_due = leb→le _ _ parts.1;
        campaign = found.0;
        of_campaign = found.1;
        may_send = found.2;
        was_free = parts.3;
        now_sending = refl;
        one_more = refl;
        leased_until = refl;
        held_by = refl;
        same_id = refl;
        same_campaign = refl;
        same_email = refl;
        same_key = refl;
      }

  -- A claim leaves each row as it was, or takes it: the row was QUEUED, due, in a campaign that is
  -- QUEUED or SENDING, and held by nobody; it is now SENDING, leased to the worker for the lease
  -- time, with one attempt more, for the same addressee. (Rows have different ids.)
  pub claim_recipients-IsTaken :
      Distinct (ids s.recipients)
      → Pointwise
          (λ r q. (q ≡ r) ⊎ IsTaken cfg worker now locked s r q)
          s.recipients
          (claim_recipients cfg worker limit now locked s).1.recipients
  claim_recipients-IsTaken keys =
      Pointwise-mono (ClaimsRow cfg worker now locked s) _ s.recipients _ one
        (claim-Pointwise cfg worker limit now locked s keys)
    where
      one :
          (r q : Recipient)
          → ClaimsRow cfg worker now locked s r q
          → (q ≡ r) ⊎ IsTaken cfg worker now locked s r q
      one r q (inl e) = inl e
      one r q (inr (c, e)) = inr (rw e (claim_row-IsTaken r c))

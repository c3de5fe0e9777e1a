-- ===== src/Activation.antt =====
-- The hand-over of a campaign to the queue, `queueCampaign` of src/lib/campaign-activation.ts, used
-- both for "send now" and when a scheduled time arrives. The transaction commits or leaves the
-- store as it was.
pub mod Handover
pub mod Race
pub mod Failure
pub mod Cycle
pub mod Recovery
use ai_email_broadcast_hw.Base.{
  ℕ, Bool, true, false, not, ◌&&◌, Option, none, some, List, [], ◌∷◌, ◌==◌, leb, if◌then◌else◌,
  select, update_where,
}
use ai_email_broadcast_hw.Store.{Store, Campaign}
use ai_email_broadcast_hw.Store.Lookup.{first}
use ai_email_broadcast_hw.Store.Status.{CampaignStatus, campaign_is}
use ai_email_broadcast_hw.Audience.{Runtime, GenerateResult, generate_recipients}
use ai_email_broadcast_hw.Campaign.{close_campaign}

pub data QueueSource : Type 0 where
  from_draft from_scheduled : QueueSource

pub data QueueResult : Type 0 where
  queued : Option ℕ → GenerateResult → QueueResult
  unavailable no_recipients : QueueResult

-- `scheduled_at <= now`; NULL passes no comparison.
unfoldable pub is_due : ℕ → Option ℕ → Bool
is_due clock none = false
is_due clock (some at) = leb at clock

-- The conditions on the campaign's own columns.
unfoldable pub is_ready : QueueSource → ℕ → Campaign → Bool
unfolding is_due
is_ready from_draft clock c = campaign_is c.status CampaignStatus.draft
is_ready from_scheduled clock c =
    campaign_is c.status CampaignStatus.scheduled && is_due clock c.scheduled_at

-- SELECT ... FOR UPDATE SKIP LOCKED; `locked` says which campaigns another transaction holds.
unfoldable pub claim_campaign : ℕ → QueueSource → ℕ → (ℕ → Bool) → List Campaign → Option Campaign
claim_campaign i source clock locked cs =
    first (select (λ c. c.id == i && is_ready source clock c && not (locked c.id)) cs)

unfoldable pub enqueue_campaign : ℕ → Campaign → Campaign
enqueue_campaign now c = record c { status = CampaignStatus.queued; updated_at = now }

unfoldable pub queue_campaign :
    Runtime → ℕ → ℕ → (ℕ → Bool) → ℕ → QueueSource → Store → QueueResult × Store
unfolding enqueue_campaign
queue_campaign rt now clock locked i source s =
    elim (claim_campaign i source clock locked s.campaigns) [
      | none ↦ (unavailable, s)
      | some c ↦
          let s' = record s {
            campaigns = update_where (λ c. c.id == i) (enqueue_campaign now) s.campaigns;
          } in
          let (result, written) = generate_recipients rt now i s' in
          if result.total == 0 then (no_recipients, s) else (queued c.scheduled_at result, written)
    ]

-- `cancelEmptyCampaign`: a scheduled campaign with nobody left to send to is closed.
unfoldable pub cancel_empty_campaign : ℕ → ℕ → Store → Store
unfolding close_campaign
cancel_empty_campaign now i s = record s {
  campaigns =
      update_where (λ c. c.id == i && campaign_is c.status CampaignStatus.scheduled)
        (close_campaign now) s.campaigns;
}

-- ===== src/Store/Status.antt =====
-- The enumerations of src/lib/db/schema.ts and their equality tests.
use ai_email_broadcast_hw.Base.{ℕ, Bool, true, ◌==◌, ◌≡◌, arith}

pub data CampaignStatus : Type 0 where
  draft scheduled queued sending paused completed cancelled : CampaignStatus

pub data DeliveryStatus : Type 0 where
  queued sending sent failed suppressed cancelled : DeliveryStatus

pub data SuppressionReason : Type 0 where
  unsubscribed manual hard_bounce complaint : SuppressionReason

abbrev pub campaign_code : CampaignStatus → ℕ
campaign_code CampaignStatus.draft = 0
campaign_code CampaignStatus.scheduled = 1
campaign_code CampaignStatus.queued = 2
campaign_code CampaignStatus.sending = 3
campaign_code CampaignStatus.paused = 4
campaign_code CampaignStatus.completed = 5
campaign_code CampaignStatus.cancelled = 6

abbrev pub delivery_code : DeliveryStatus → ℕ
delivery_code DeliveryStatus.queued = 0
delivery_code DeliveryStatus.sending = 1
delivery_code DeliveryStatus.sent = 2
delivery_code DeliveryStatus.failed = 3
delivery_code DeliveryStatus.suppressed = 4
delivery_code DeliveryStatus.cancelled = 5

abbrev pub campaign_is : CampaignStatus → CampaignStatus → Bool
campaign_is s t = campaign_code s == campaign_code t

abbrev pub delivery_is : DeliveryStatus → DeliveryStatus → Bool
delivery_is s t = delivery_code s == delivery_code t

pub campaign_is→eq : (s t : CampaignStatus) → campaign_is s t ≡ true → s ≡ t
campaign_is→eq s t h = ground arith

pub delivery_is→eq : (s t : DeliveryStatus) → delivery_is s t ≡ true → s ≡ t
delivery_is→eq s t h = ground arith

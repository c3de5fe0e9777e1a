-- ===== src/Activation/Race/Tests.antt =====
-- The scheduled campaign is cancelled, moved and started.
use ai_email_broadcast_hw.Base.{◌≡◌, refl, some, text_eq}
use ai_email_broadcast_hw.Store.Status.{CampaignStatus}
use ai_email_broadcast_hw.Campaign.{moved, reschedule, update_campaign}
use ai_email_broadcast_hw.Address.{normalize_email, lower_ascii}
use ai_email_broadcast_hw.Queue.{is_suppressed}
use ai_email_broadcast_hw.Audience.{
  generate_recipients, sendable_for, load_candidates, dedupe_candidates, insert_recipient,
}
use ai_email_broadcast_hw.Store.{Campaign}
use ai_email_broadcast_hw.Activation.{
  from_scheduled, queued, queue_campaign, claim_campaign, is_ready,
}
use ai_email_broadcast_hw.Samples.{runtime, unlocked, store, campaign}

two_rows :
    (queue_campaign runtime 1000 1000 unlocked 2 from_scheduled store).0
    ≡ queued
        (some 900)
        (record { inserted = 2; skipped_suppressed = 0; duplicates_removed = 1; total = 2 })
unfolding queue_campaign claim_campaign is_ready generate_recipients sendable_for load_candidates
    dedupe_candidates normalize_email lower_ascii insert_recipient text_eq is_suppressed
two_rows = refl

abbrev postponed : Campaign
postponed = record (campaign 2 CampaignStatus.scheduled (some 5000)) { updated_at = 800 }

postponed_lem : (reschedule 800 800 2 5000 store).0 ≡ moved postponed
unfolding reschedule update_campaign
postponed_lem = refl

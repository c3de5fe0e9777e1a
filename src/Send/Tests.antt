-- ===== src/Send/Tests.antt =====
-- A draft with a subject, a body and a list, which two requests send at once.
use ai_email_broadcast_hw.Base.{refl, true, none, [], ◌∷◌, Text, text_eq}
use ai_email_broadcast_hw.Address.{lower_ascii, normalize_email}
use ai_email_broadcast_hw.Store.{Store, find_campaign}
use ai_email_broadcast_hw.Store.Lookup.{AllHaveStatus}
use ai_email_broadcast_hw.Store.Status.{CampaignStatus}
use ai_email_broadcast_hw.Samples.{store, campaign, runtime, unlocked}
use ai_email_broadcast_hw.Activation.{claim_campaign, is_ready}
use ai_email_broadcast_hw.Audience.{
  generate_recipients, sendable_for, dedupe_candidates, load_candidates, insert_recipient,
}
use ai_email_broadcast_hw.Queue.{is_suppressed}
use ai_email_broadcast_hw.Send.{send_draft, schedule_draft, instant}
use ai_email_broadcast_hw.Send.Laws.{Sent, send_draft-Sent, Refused, departs_once}

abbrev filled : Text
filled = b'x' ∷ []

abbrev with_draft : Store
with_draft = record store {
  campaigns =
      record (campaign 3 CampaignStatus.draft none) { subject = filled; compiled_html = filled }
      ∷ [];
  campaign_lists = record { campaign_id = 3; list_id = 5 } ∷ [];
}

-- The other request.
abbrev other : Store → Store
other s = (send_draft runtime 1000 1000 unlocked true (λ t. t) 3 s).1

send_draft-Sent_example :
    Sent 3 true with_draft with_draft
      (send_draft runtime 1000 1000 unlocked true (λ t. t) 3 with_draft)
send_draft-Sent_example = send_draft-Sent runtime 1000 1000 unlocked true (λ t. t) 3 with_draft

other_queues : AllHaveStatus 3 CampaignStatus.queued (other with_draft).campaigns
unfolding send_draft find_campaign claim_campaign is_ready generate_recipients sendable_for
    dedupe_candidates load_candidates normalize_email lower_ascii text_eq is_suppressed
    insert_recipient
other_queues = (λ e. refl, tt)

departs_once_example :
    Refused with_draft
      (other with_draft)
      (send_draft runtime 1000 1000 unlocked true other 3 with_draft)
    × Refused with_draft
        (other with_draft)
        (schedule_draft runtime 1000 true other (instant 9000) 3 with_draft)
departs_once_example =
    departs_once runtime 1000 1000 unlocked true (instant 9000) other 3 with_draft other_queues

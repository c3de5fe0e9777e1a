-- ===== src/Send.antt =====
-- How a draft campaign leaves the editor, src/lib/campaign-send.ts. `meanwhile` is what other
-- requests write between the first read and the write; `parsed` is what `parseScheduledAt` makes of
-- the requested time, with the message key of `scheduleErrorKey` where it refuses it.
pub mod Ready
pub mod Laws
pub mod Requests
mod Tests
use ai_email_broadcast_hw.Base.{
  ℕ, Bool, true, false, not, ◌&&◌, ◌||◌, Option, none, some, List, [], ◌∷◌, Text, String, ◌==◌,
  if◌then◌else◌,
}
use ai_email_broadcast_hw.Api.{Response, ok, refused, conflict, bad_request, not_found}
use ai_email_broadcast_hw.Address.{trim}
use ai_email_broadcast_hw.Store.{Store, Campaign, find_campaign}
use ai_email_broadcast_hw.Store.Status.{CampaignStatus, campaign_is}
use ai_email_broadcast_hw.Audience.{
  Runtime, GenerateResult, AudiencePreview, is_empty, preview_audience, lists_of,
}
use ai_email_broadcast_hw.Activation.{
  QueueSource, QueueResult, from_draft, queued, unavailable, no_recipients, queue_campaign,
}
use ai_email_broadcast_hw.Campaign.{update_campaign}

abbrev pub is_blank_text : Text → Bool
is_blank_text t = is_empty (trim t)

-- `assertReadyToSend`: the refusal, or the campaign's lists.
unfoldable pub ready_to_send : Bool → Campaign → Store → Response (List ℕ)
unfolding is_empty trim
ready_to_send has_smtp c s =
    if is_blank_text c.subject
    then bad_request "err.campaign.subjectRequired"
    else if is_blank_text c.compiled_html
    then bad_request "err.campaign.bodyEmpty"
    else if not has_smtp
    then bad_request "err.smtp.configureBeforeSend"
    else ok (lists_of c.id s.campaign_lists)

-- The campaign, if it is there and a DRAFT.
unfoldable pub find_draft : ℕ → Store → Response Campaign
find_draft i s = elim (find_campaign i s.campaigns) [
  | none ↦ not_found "err.campaign.notFound"
  | some c ↦
      if campaign_is c.status CampaignStatus.draft
      then ok c
      else conflict "err.campaign.alreadyStatus"
]

-- A refusal ends the function; an answer goes on.
abbrev pub and_then :
    {A B : Type 0} → Response A → Store → (A → Response B × Store) → Response B × Store
and_then (ok a) s f = f a
and_then (refused code key) s f = (refused code key, s)

abbrev pub answer : QueueResult → Response GenerateResult
answer (queued at g) = ok g
answer unavailable = conflict "err.campaign.alreadyQueued"
answer no_recipients = bad_request "err.campaign.noRecipients"

unfoldable pub hand_over :
    Runtime → ℕ → ℕ → (ℕ → Bool) → ℕ → Store → Response GenerateResult × Store
unfolding queue_campaign
hand_over rt now clock locked i s =
    let (result, written) = queue_campaign rt now clock locked i from_draft s in
    (answer result, written)

-- `sendDraftCampaign`.
unfoldable pub send_draft :
    Runtime
    → ℕ
    → ℕ
    → (ℕ → Bool)
    → Bool
    → (Store → Store)
    → ℕ
    → Store
    → Response GenerateResult × Store
unfolding find_draft ready_to_send hand_over
send_draft rt now clock locked has_smtp meanwhile i s = and_then (find_draft i s) s (λ c.
    and_then (ready_to_send has_smtp c s) s
      (λ lists. hand_over rt now clock locked i (meanwhile s)))

pub data Parsed : Type 0 where
  instant : (date : ℕ) → Parsed
  invalid : (key : String) → Parsed

abbrev pub value_or : ℕ → Option ℕ → ℕ
value_or a none = a
value_or a (some b) = b

abbrev pub schedule_for : ℕ → ℕ → Campaign → Campaign
schedule_for now date c = record c {
  status = CampaignStatus.scheduled;
  scheduled_at = some date;
  updated_at = now;
}

abbrev pub scheduled : ℕ → Option Campaign × Store → Response ℕ × Store
scheduled date (none, s) = (conflict "err.campaign.alreadyScheduled", s)
scheduled date (some c, s) = (ok (value_or date c.scheduled_at), s)

-- The conditional UPDATE, and the time that it returns.
unfoldable pub write_schedule : ℕ → ℕ → ℕ → Store → Response ℕ × Store
unfolding update_campaign
write_schedule now date i s =
    scheduled date
      (update_campaign i (λ c. campaign_is c.status CampaignStatus.draft) (schedule_for now date) s)

abbrev pub read_time : Parsed → Response ℕ
read_time (instant date) = ok date
read_time (invalid key) = bad_request key

-- `scheduleDraftCampaign`.
unfoldable pub schedule_draft :
    Runtime → ℕ → Bool → (Store → Store) → Parsed → ℕ → Store → Response ℕ × Store
unfolding find_draft ready_to_send preview_audience write_schedule
schedule_draft rt now has_smtp meanwhile parsed i s = and_then (find_draft i s) s (λ c.
    and_then (read_time parsed) s (λ date. and_then (ready_to_send has_smtp c s) s (λ lists.
      if (preview_audience rt lists s).final_recipients == 0
      then (bad_request "err.campaign.noRecipients", s)
      else write_schedule now date i (meanwhile s))))

-- ===== src/Campaign.antt =====
-- The routes that move a campaign from one status to another: pause, resume and cancel under
-- src/app/api/campaigns/[id], and the two writes of src/lib/campaign-activation.ts that cancel and
-- move a schedule.
pub mod Laws
use ai_email_broadcast_hw.Base.{
  ℕ, Bool, false, ◌&&◌, ◌||◌, Option, none, some, map, ◌==◌, ltb, if◌then◌else◌, select,
  update_where, count_where,
}
use ai_email_broadcast_hw.Api.{Response, ok, conflict}
use ai_email_broadcast_hw.Store.{Store, Campaign, Recipient, find_campaign}
use ai_email_broadcast_hw.Store.Lookup.{first}
use ai_email_broadcast_hw.Store.Status.{CampaignStatus, DeliveryStatus, campaign_is, delivery_is}

-- UPDATE campaigns SET f WHERE id = i AND p RETURNING *.
unfoldable pub update_campaign :
    ℕ → (Campaign → Bool) → (Campaign → Campaign) → Store → Option Campaign × Store
update_campaign i p f s =
    let hit = λ (c : Campaign). c.id == i && p c in
    (
      first (map f (select hit s.campaigns)),
      record s { campaigns = update_where hit f s.campaigns },
    )

unfoldable pub pause : ℕ → ℕ → Store → Response (Unit {0}) × Store
pause now i s =
    let active = λ (c : Campaign).
      campaign_is c.status CampaignStatus.queued || campaign_is c.status CampaignStatus.sending in
    let written =
      update_campaign i active (λ c. record c { status = CampaignStatus.paused; updated_at = now })
        s in
    elim written.0 [
      | none ↦ (conflict "err.campaign.pauseState", written.1)
      | some c ↦ (ok tt, written.1)
    ]

unfoldable pub resume : ℕ → ℕ → Store → Response (Unit {0}) × Store
resume now i s =
    let written =
      update_campaign i (λ c. campaign_is c.status CampaignStatus.paused)
        (λ c. record c { status = CampaignStatus.sending; updated_at = now }) s in
    elim written.0 [
      | none ↦ (conflict "err.campaign.resumeState", written.1)
      | some c ↦ (ok tt, written.1)
    ]

unfoldable pub close_campaign : ℕ → Campaign → Campaign
close_campaign now c = record c {
  status = CampaignStatus.cancelled;
  completed_at = some now;
  updated_at = now;
}

unfoldable pub cancel_row : Recipient → Recipient
cancel_row r = record r {
  delivery_status = DeliveryStatus.cancelled;
  last_error = some "Campaign cancelled before delivery";
  lease_expires_at = none;
  claimed_by = none;
}

unfoldable pub waits_in : ℕ → Recipient → Bool
waits_in i r = r.campaign_id == i && delivery_is r.delivery_status DeliveryStatus.queued

-- The second statement of the cancel route, and the number of rows that it returns.
unfoldable pub cancel_recipients : ℕ → Store → ℕ × Store
unfolding cancel_row waits_in
cancel_recipients i s = (
  count_where (waits_in i) s.recipients,
  record s { recipients = update_where (waits_in i) cancel_row s.recipients },
)

unfoldable pub is_under_way : Campaign → Bool
is_under_way c =
    campaign_is c.status CampaignStatus.queued
    || (campaign_is c.status CampaignStatus.sending || campaign_is c.status CampaignStatus.paused)

-- It answers with the number of recipients that will get nothing.
unfoldable pub cancel : ℕ → ℕ → Store → Response ℕ × Store
unfolding close_campaign cancel_recipients is_under_way
cancel now i s =
    let closed = update_campaign i is_under_way (close_campaign now) s in
    elim closed.0 [
      | none ↦ (conflict "err.campaign.cancelState", closed.1)
      | some c ↦ let (n, s') = cancel_recipients i closed.1 in (ok n, s')
    ]

pub data CancelScheduled : Type 0 where
  cancelled already_cancelled : Campaign → CancelScheduled
  not_found : CancelScheduled
  in_conflict : CampaignStatus → CancelScheduled

-- Nothing matched: why, for the caller.
unfoldable pub explain_cancel : Option Campaign → CancelScheduled
explain_cancel none = not_found
explain_cancel (some c) =
    if campaign_is c.status CampaignStatus.cancelled
    then already_cancelled c
    else in_conflict c.status

unfoldable pub cancel_scheduled : ℕ → ℕ → Store → CancelScheduled × Store
unfolding close_campaign explain_cancel
cancel_scheduled now i s =
    let written =
      update_campaign i (λ c. campaign_is c.status CampaignStatus.scheduled) (close_campaign now)
        s in
    elim written.0 [
      | none ↦ (explain_cancel (find_campaign i written.1.campaigns), written.1)
      | some c ↦ (cancelled c, written.1)
    ]

pub data Rescheduled : Type 0 where
  moved : Campaign → Rescheduled
  not_found : Rescheduled
  in_conflict : CampaignStatus → Bool → Rescheduled

unfoldable pub explain_reschedule : Option Campaign → Rescheduled
explain_reschedule none = not_found
explain_reschedule (some c) = in_conflict c.status (campaign_is c.status CampaignStatus.scheduled)

-- `scheduled_at > now`; NULL passes no comparison.
unfoldable pub is_ahead : ℕ → Option ℕ → Bool
is_ahead now none = false
is_ahead now (some at) = ltb now at

-- `scheduled_at` is compared with `clock`, the test clock's instant or the database's own.
unfoldable pub reschedule : ℕ → ℕ → ℕ → ℕ → Store → Rescheduled × Store
unfolding explain_reschedule is_ahead
reschedule now clock i at s =
    let movable = λ (c : Campaign).
      campaign_is c.status CampaignStatus.scheduled && is_ahead clock c.scheduled_at in
    let written =
      update_campaign i movable (λ c. record c { scheduled_at = some at; updated_at = now }) s in
    elim written.0 [
      | none ↦ (explain_reschedule (find_campaign i written.1.campaigns), written.1)
      | some c ↦ (moved c, written.1)
    ]

-- ===== src/Queue.antt =====
-- The persistent sending queue, src/lib/queue.ts. Each function is one SQL statement (two for
-- `reclaim_expired_leases`) as a function of the store; `now` is the instant at which it runs.
-- The two numbers that come from environment variables are a `Config`. The two statements of
-- `reclaim_expired_leases` run at one instant.
pub mod Claim
pub mod Finalize
use ai_email_broadcast_hw.Base.{
  ℕ, zero, suc, ◌+◌, ◌-◌, ◌*◌, ◌/◌, ◌≤◌, Bool, true, false, not, ◌&&◌, ◌||◌, Option, none, some,
  List, [], ◌∷◌, ◌++◌, map, Text, String, ◌==◌, ltb, leb, if◌then◌else◌, select, update_where,
  count_where, any, mem_id, take, length, coalesce, text_eq, is_some,
}
use ai_email_broadcast_hw.Base.Sort.{sort}
use ai_email_broadcast_hw.Store.{
  Store, Campaign, Recipient, SendLog, Suppression, seconds, find_campaign,
}
use ai_email_broadcast_hw.Store.Status.{CampaignStatus, DeliveryStatus, campaign_is, delivery_is}

pub record Config : Type 0 where
  -- QUEUE_LEASE_SECONDS and SMTP_MAX_ATTEMPTS.
  pub lease_seconds : ℕ
  pub max_attempts : ℕ

-- A claimed row with the content of its campaign.
pub record ClaimedRecipient : Type 0 where
  pub row : Recipient
  pub subject : Text
  pub compiled_html : Text
  pub text_body : Option Text
  pub from_name : Option Text
  pub from_email : Option Text
  pub reply_to : Option Text

unfoldable pub count_sent_in_window : ℕ → ℕ → Store → ℕ
count_sent_in_window now window_seconds s =
    count_where (λ l. ltb now (l.occurred_at + seconds window_seconds)) s.send_log

unfoldable pub count_sent_in_last_hour : ℕ → Store → ℕ
unfolding count_sent_in_window
count_sent_in_last_hour now s = count_sent_in_window now 3600 s

-- `count` rows at `now`, numbered from `next`.
unfoldable pub log_rows : ℕ → ℕ → ℕ → List SendLog
log_rows now next zero = []
log_rows now next (suc n) = record { id = next; occurred_at = now } ∷ log_rows now (suc next) n

unfoldable pub log_send_attempt : ℕ → ℕ → Store → List ℕ × Store
unfolding log_rows
log_send_attempt now count s =
    let rows = log_rows now s.next_id count in
    (map (λ l. l.id) rows, record s { send_log = s.send_log ++ rows; next_id = s.next_id + count })

unfoldable pub refund_send_attempts : List ℕ → Store → Store
refund_send_attempts ids s = record s { send_log = select (λ l. not (mem_id l.id ids)) s.send_log }

unfoldable pub prune_send_log : ℕ → Store → Store
prune_send_log now s = record s {
  send_log = select (λ l. leb now (l.occurred_at + seconds 10800)) s.send_log;
}

abbrev pub lease_error : Option String → Option String
lease_error e = coalesce e (some "Worker lease expired before completion")

-- `delivery_status = 'SENDING' AND lease_expires_at IS NOT NULL AND lease_expires_at < now()`.
unfoldable pub lease_expired : ℕ → Recipient → Bool
lease_expired now r =
    delivery_is r.delivery_status DeliveryStatus.sending
    && elim r.lease_expires_at [ none ↦ false | some t ↦ ltb t now ]

unfoldable pub requeue_row : Recipient → Recipient
requeue_row r = record r {
  delivery_status = DeliveryStatus.queued;
  lease_expires_at = none;
  claimed_by = none;
  last_error = lease_error r.last_error;
}

unfoldable pub give_up_row : Recipient → Recipient
give_up_row r = record r {
  delivery_status = DeliveryStatus.failed;
  lease_expires_at = none;
  claimed_by = none;
  last_error = lease_error r.last_error;
}

-- The conditions of the two statements.
unfoldable pub is_retriable : Config → ℕ → Recipient → Bool
unfolding lease_expired
is_retriable cfg now r = lease_expired now r && ltb r.attempts cfg.max_attempts

unfoldable pub is_spent : Config → ℕ → Recipient → Bool
unfolding lease_expired
is_spent cfg now r = lease_expired now r && leb cfg.max_attempts r.attempts

unfoldable pub reclaim_expired_leases : Config → ℕ → Store → ℕ × Store
unfolding requeue_row give_up_row is_retriable is_spent
reclaim_expired_leases cfg now s = (
  count_where (is_retriable cfg now) s.recipients,
  record s {
    recipients =
        update_where (is_spent cfg now) give_up_row
          (update_where (is_retriable cfg now) requeue_row s.recipients);
  },
)

-- `c.status IN ('QUEUED', 'SENDING')` for the campaign that the join finds.
unfoldable pub is_sendable : Option Campaign → Bool
is_sendable none = false
is_sendable (some c) =
    campaign_is c.status CampaignStatus.queued || campaign_is c.status CampaignStatus.sending

-- The rows that the claim's sub-select may take; `locked` says which rows another transaction
-- holds, and SKIP LOCKED passes over those.
unfoldable pub is_claimable : ℕ → (ℕ → Bool) → List Campaign → Recipient → Bool
unfolding is_sendable
is_claimable now locked cs r =
    delivery_is r.delivery_status DeliveryStatus.queued
    && leb r.next_attempt_at now
    && is_sendable (find_campaign r.campaign_id cs)
    && not (locked r.id)

-- `ORDER BY r.next_attempt_at, r.created_at`.
unfoldable pub before : Recipient → Recipient → Bool
before r q =
    ltb r.next_attempt_at q.next_attempt_at
    || (r.next_attempt_at == q.next_attempt_at && leb r.created_at q.created_at)

-- The CTE `due`.
unfoldable pub due_rows : ℕ → (ℕ → Bool) → ℕ → Store → List Recipient
unfolding is_claimable before sort
due_rows now locked limit s =
    take limit (sort before (select (is_claimable now locked s.campaigns) s.recipients))

unfoldable pub claim_row : Config → String → ℕ → Recipient → Recipient
claim_row cfg worker now r = record r {
  delivery_status = DeliveryStatus.sending;
  attempts = r.attempts + 1;
  last_attempt_at = some now;
  lease_expires_at = some (now + seconds cfg.lease_seconds);
  claimed_by = some worker;
}

-- `FROM campaigns c2 WHERE c2.id = r.campaign_id`, and the columns that RETURNING lists.
with_content : List Campaign → List Recipient → List ClaimedRecipient
with_content cs [] = []
with_content cs (r ∷ rs) =
    let rest = with_content cs rs in
    elim (find_campaign r.campaign_id cs) [
      | none ↦ rest
      | some c ↦
          record {
            row = r;
            subject = c.subject;
            compiled_html = c.compiled_html;
            text_body = c.text_body;
            from_name = c.from_name;
            from_email = c.from_email;
            reply_to = c.reply_to;
          }
          ∷ rest
    ]

unfoldable pub claim_recipients :
    Config → String → ℕ → ℕ → (ℕ → Bool) → Store → List ClaimedRecipient × Store
unfolding due_rows claim_row with_content
claim_recipients cfg worker limit now locked s =
    let ids = map (λ (r : Recipient). r.id) (due_rows now locked limit s) in
    let taken = λ (r : Recipient). mem_id r.id ids in
    if limit == 0 then ([], s) else (
      with_content s.campaigns (map (claim_row cfg worker now) (select taken s.recipients)),
      record s { recipients = update_where taken (claim_row cfg worker now) s.recipients },
    )

-- `WHERE id = ... AND delivery_status = 'SENDING'`.
unfoldable pub is_in_flight : ℕ → Recipient → Bool
is_in_flight i r = r.id == i && delivery_is r.delivery_status DeliveryStatus.sending

-- GREATEST(attempts - 1, 0) is the subtraction that stops at 0.
unfoldable pub release_row : Recipient → Recipient
release_row r = record r {
  delivery_status = DeliveryStatus.queued;
  lease_expires_at = none;
  claimed_by = none;
  attempts = r.attempts - 1;
}

unfoldable pub release_claims : List ℕ → Store → Store
unfolding release_row
release_claims ids s =
    let held =
      λ (r : Recipient). mem_id r.id ids && delivery_is r.delivery_status DeliveryStatus.sending in
    record s { recipients = update_where held release_row s.recipients }

unfoldable pub sent_row : ℕ → Recipient → Recipient
sent_row now r = record r {
  delivery_status = DeliveryStatus.sent;
  sent_at = some now;
  last_error = none;
  lease_expires_at = none;
  claimed_by = none;
}

unfoldable pub mark_sent : ℕ → ℕ → Store → Store
unfolding sent_row is_in_flight
mark_sent now i s = record s {
  recipients = update_where (is_in_flight i) (sent_row now) s.recipients;
}

unfoldable pub failed_row : String → Recipient → Recipient
failed_row error r = record r {
  delivery_status = DeliveryStatus.failed;
  last_error = some error;
  lease_expires_at = none;
  claimed_by = none;
}

unfoldable pub mark_failed : ℕ → String → Store → Store
unfolding failed_row is_in_flight
mark_failed i error s = record s {
  recipients = update_where (is_in_flight i) (failed_row error) s.recipients;
}

unfoldable pub suppressed_row : String → Recipient → Recipient
suppressed_row reason r = record r {
  delivery_status = DeliveryStatus.suppressed;
  last_error = some reason;
  lease_expires_at = none;
  claimed_by = none;
  attempts = r.attempts - 1;
}

unfoldable pub mark_suppressed : ℕ → String → Store → Store
unfolding suppressed_row is_in_flight
mark_suppressed i reason s = record s {
  recipients = update_where (is_in_flight i) (suppressed_row reason) s.recipients;
}

unfoldable pub retry_row : ℕ → ℕ → String → Recipient → Recipient
retry_row now delay error r = record r {
  delivery_status = DeliveryStatus.queued;
  next_attempt_at = now + seconds delay;
  last_error = some error;
  lease_expires_at = none;
  claimed_by = none;
}

unfoldable pub schedule_retry : ℕ → ℕ → ℕ → String → Store → Store
unfolding retry_row is_in_flight
schedule_retry now i delay error s = record s {
  recipients = update_where (is_in_flight i) (retry_row now delay error) s.recipients;
}

-- Whether the suppression list has the address.
unfoldable pub is_suppressed : List Suppression → Text → Bool
is_suppressed list email = any (λ p. text_eq p.email_normalized email) list

-- The given addresses that are on the list.
unfoldable pub filter_suppressed : List Text → Store → List Text
unfolding is_suppressed
filter_suppressed emails s = select (is_suppressed s.suppressions) emails

unfoldable pub start_campaign : ℕ → Campaign → Campaign
start_campaign now c = record c {
  status = CampaignStatus.sending;
  started_at = coalesce c.started_at (some now);
  updated_at = now;
}

unfoldable pub mark_campaigns_started : ℕ → List ℕ → Store → List ℕ × Store
unfolding start_campaign
mark_campaigns_started now ids s =
    let starts = λ (c : Campaign). mem_id c.id ids && campaign_is c.status CampaignStatus.queued in
    (
      map (λ (c : Campaign). c.id) (select starts s.campaigns),
      record s { campaigns = update_where starts (start_campaign now) s.campaigns },
    )

-- `delivery_status IN ('QUEUED', 'SENDING')`.
unfoldable pub is_pending : Recipient → Bool
is_pending r =
    delivery_is r.delivery_status DeliveryStatus.queued
    || delivery_is r.delivery_status DeliveryStatus.sending

unfoldable pub has_queue : ℕ → List Recipient → Bool
has_queue i = any (λ r. r.campaign_id == i)

unfoldable pub has_pending : ℕ → List Recipient → Bool
unfolding is_pending
has_pending i = any (λ r. r.campaign_id == i && is_pending r)

unfoldable pub is_finished : List Recipient → Campaign → Bool
unfolding has_queue has_pending
is_finished rs c =
    (campaign_is c.status CampaignStatus.sending
      || (campaign_is c.status CampaignStatus.queued && has_queue c.id rs))
    && not (has_pending c.id rs)

unfoldable pub complete_campaign : ℕ → Campaign → Campaign
complete_campaign now c = record c {
  status = CampaignStatus.completed;
  completed_at = some now;
  updated_at = now;
}

unfoldable pub finalize_completed_campaigns : ℕ → Store → ℕ × Store
unfolding complete_campaign is_finished
finalize_completed_campaigns now s = (
  count_where (is_finished s.recipients) s.campaigns,
  record s {
    campaigns = update_where (is_finished s.recipients) (complete_campaign now) s.campaigns;
  },
)

pub record QueueSnapshot : Type 0 where
  pub queued : ℕ
  pub sending : ℕ
  pub sent_last_hour : ℕ

unfoldable pub queue_snapshot : ℕ → Store → QueueSnapshot
unfolding count_sent_in_last_hour
queue_snapshot now s = record {
  queued = count_where (λ r. delivery_is r.delivery_status DeliveryStatus.queued) s.recipients;
  sending = count_where (λ r. delivery_is r.delivery_status DeliveryStatus.sending) s.recipients;
  sent_last_hour = count_sent_in_last_hour now s;
}

-- ===== src/Samples.antt =====
-- A small store, for the tests: one campaign that is being sent, one that is scheduled, three
-- contacts of which two share an address, and three recipient rows.
use ai_email_broadcast_hw.Base.{ℕ, Bool, false, Option, none, some, [], ◌∷◌, Text}
use ai_email_broadcast_hw.Address.{lower_ascii}
use ai_email_broadcast_hw.Store.{Store, Contact, Campaign, Recipient}
use ai_email_broadcast_hw.Store.Status.{CampaignStatus, DeliveryStatus, SuppressionReason}
use ai_email_broadcast_hw.Queue.{Config}
use ai_email_broadcast_hw.Suppression.{SuppressInput}
use ai_email_broadcast_hw.Audience.{Runtime}
use ai_email_broadcast_hw.Activation.Cycle.{Moment}

abbrev pub config : Config
config = record { lease_seconds = 300; max_attempts = 3 }

abbrev pub unlocked : ℕ → Bool
unlocked i = false

-- "a@x", " A@X" and "b@x".
abbrev pub ann : Text
ann = 97 ∷ 64 ∷ 120 ∷ []

abbrev pub ann_again : Text
ann_again = 32 ∷ 65 ∷ 64 ∷ 88 ∷ []

abbrev pub bob : Text
bob = 98 ∷ 64 ∷ 120 ∷ []

abbrev pub runtime : Runtime
runtime = record {
  lower = lower_ascii;
  tracking_token = λ n. n ∷ [];
  unsubscribe_token = λ n. n ∷ [];
}

abbrev pub contact : ℕ → Text → Contact
contact i email = record {
  id = i;
  email = email;
  email_normalized = email;
  first_name = none;
  last_name = none;
  custom_fields = [];
  created_at = i;
  updated_at = i;
}

abbrev pub campaign : ℕ → CampaignStatus → Option ℕ → Campaign
campaign i status at = record {
  id = i;
  name = [];
  subject = [];
  from_name = none;
  from_email = none;
  reply_to = none;
  content_html = [];
  compiled_html = [];
  text_body = none;
  text_body_is_custom = false;
  status = status;
  total_recipients = 0;
  created_at = 0;
  updated_at = 0;
  scheduled_at = at;
  started_at = none;
  completed_at = none;
}

abbrev pub waiting : ℕ → Text → ℕ → Recipient
waiting i email next = record {
  id = i;
  campaign_id = 1;
  contact_id = none;
  email = email;
  email_normalized = email;
  first_name = none;
  last_name = none;
  custom_fields = [];
  delivery_status = DeliveryStatus.queued;
  attempts = 0;
  last_attempt_at = none;
  next_attempt_at = next;
  sent_at = none;
  last_error = none;
  lease_expires_at = none;
  claimed_by = none;
  tracking_token = [];
  unsubscribe_token = [];
  first_opened_at = none;
  last_opened_at = none;
  open_count = 0;
  created_at = i;
}

abbrev pub store : Store
store = record {
  contacts = contact 10 ann ∷ contact 11 bob ∷ contact 12 ann_again ∷ [];
  members =
      record { list_id = 5; contact_id = 10 }
      ∷ record { list_id = 5; contact_id = 11 }
      ∷ record { list_id = 5; contact_id = 12 }
      ∷ [];
  suppressions = [];
  campaigns =
      campaign 1 CampaignStatus.sending none ∷ campaign 2 CampaignStatus.scheduled (some 900) ∷ [];
  campaign_lists = record { campaign_id = 2; list_id = 5 } ∷ [];
  recipients = waiting 20 ann 500 ∷ waiting 21 bob 400 ∷ waiting 22 (99 ∷ ann) 400 ∷ [];
  send_log = [];
  next_id = 30;
}

abbrev pub request : SuppressInput
request = record {
  email = bob;
  email_normalized = bob;
  reason = SuppressionReason.unsubscribed;
  campaign_id = some 1;
  note = none;
}

-- A statement that nothing disturbs, at 1000 ms.
abbrev pub calm_moment : Moment
calm_moment = record {
  late = false;
  now = 1000;
  clock = 1000;
  locked = unlocked;
  meanwhile = λ s. s;
  throws = none;
  close_throws = none;
}

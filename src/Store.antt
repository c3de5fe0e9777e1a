-- ===== src/Store.antt =====
-- The database of src/lib/db/schema.ts: one record for each table that sending reads or writes,
-- with the columns in the schema's order, and the store that holds the tables. Instants are
-- milliseconds; uuids and serial ids are numbers; NULL is `none`. The tables' rows stand in
-- insertion order.
pub mod Status
pub mod Lookup
use ai_email_broadcast_hw.Base.{
  ℕ, zero, suc, ◌*◌, Bool, true, false, Option, none, some, List, [], ◌∷◌, Text, String, ◌==◌,
  if◌then◌else◌,
}
use Status.{CampaignStatus, DeliveryStatus, SuppressionReason}

pub record Contact : Type 0 where
  pub id : ℕ
  pub email : Text
  pub email_normalized : Text
  pub first_name : Option Text
  pub last_name : Option Text
  -- The JSON text of the column.
  pub custom_fields : Text
  pub created_at : ℕ
  pub updated_at : ℕ

pub record Membership : Type 0 where
  pub list_id : ℕ
  pub contact_id : ℕ

pub record Suppression : Type 0 where
  pub id : ℕ
  pub email : Text
  pub email_normalized : Text
  pub reason : SuppressionReason
  pub note : Option Text
  pub campaign_id : Option ℕ
  pub created_at : ℕ

pub record Campaign : Type 0 where
  pub id : ℕ
  pub name : Text
  pub subject : Text
  pub from_name : Option Text
  pub from_email : Option Text
  pub reply_to : Option Text
  pub content_html : Text
  pub compiled_html : Text
  pub text_body : Option Text
  pub text_body_is_custom : Bool
  pub status : CampaignStatus
  pub total_recipients : ℕ
  pub created_at : ℕ
  pub updated_at : ℕ
  pub scheduled_at : Option ℕ
  pub started_at : Option ℕ
  pub completed_at : Option ℕ

pub record CampaignList : Type 0 where
  pub campaign_id : ℕ
  pub list_id : ℕ

pub record Recipient : Type 0 where
  pub id : ℕ
  pub campaign_id : ℕ
  pub contact_id : Option ℕ
  pub email : Text
  pub email_normalized : Text
  pub first_name : Option Text
  pub last_name : Option Text
  pub custom_fields : Text
  pub delivery_status : DeliveryStatus
  pub attempts : ℕ
  pub last_attempt_at : Option ℕ
  pub next_attempt_at : ℕ
  pub sent_at : Option ℕ
  pub last_error : Option String
  pub lease_expires_at : Option ℕ
  pub claimed_by : Option String
  pub tracking_token : Text
  pub unsubscribe_token : Text
  pub first_opened_at : Option ℕ
  pub last_opened_at : Option ℕ
  pub open_count : ℕ
  pub created_at : ℕ

pub record SendLog : Type 0 where
  pub id : ℕ
  pub occurred_at : ℕ

pub record Store : Type 0 where
  pub contacts : List Contact
  pub members : List Membership
  pub suppressions : List Suppression
  pub campaigns : List Campaign
  pub campaign_lists : List CampaignList
  pub recipients : List Recipient
  pub send_log : List SendLog
  -- The next value of the sequence that numbers new rows.
  pub next_id : ℕ

-- `n * interval '1 second'`.
abbrev pub seconds : ℕ → ℕ
seconds n = n * 1000

-- The campaign with this primary key.
unfoldable pub find_campaign : ℕ → List Campaign → Option Campaign
find_campaign i [] = none
find_campaign i (c ∷ cs) = if c.id == i then some c else find_campaign i cs

-- ===== src/Audience.antt =====
-- Who a campaign is sent to, src/lib/campaign-recipients.ts: the contacts of its lists, one entry an
-- address, less the suppressed ones, written as recipient rows.
pub mod Dedupe
pub mod Generate
pub mod Statuses
pub mod Estimate
use ai_email_broadcast_hw.Base.{
  ℕ, zero, suc, ◌+◌, ◌-◌, Bool, true, false, not, ◌&&◌, ◌||◌, Option, none, some, List, [], ◌∷◌,
  ◌++◌, map, Text, ◌==◌, leb, ltb, if◌then◌else◌, select, update_where, count_where, any, mem_id,
  length, text_eq, is_some,
}
use ai_email_broadcast_hw.Base.Sort.{sort}
use ai_email_broadcast_hw.Address.{normalize_email}
use ai_email_broadcast_hw.Store.{Store, Contact, Membership, Campaign, CampaignList, Recipient}
use ai_email_broadcast_hw.Store.Status.{DeliveryStatus, delivery_is}
use ai_email_broadcast_hw.Queue.{is_suppressed, filter_suppressed}

-- What the runtime supplies: lower case, and the random tokens of a new row.
pub record Runtime : Type 0 where
  pub lower : Text → Text
  pub tracking_token : ℕ → Text
  pub unsubscribe_token : ℕ → Text

pub record Candidate : Type 0 where
  pub contact_id : Option ℕ
  pub email : Text
  pub first_name : Option Text
  pub last_name : Option Text
  pub custom_fields : Text

-- A candidate with the key that it was kept under.
pub record Unique : Type 0 where
  pub candidate : Candidate
  pub open candidate use *
  pub email_normalized : Text

pub record Deduped : Type 0 where
  pub unique : List Unique
  pub duplicates_removed : ℕ

unfoldable pub has_key : Text → List Unique → Bool
has_key k = any (λ u. text_eq u.email_normalized k)

unfoldable pub is_empty : Text → Bool
is_empty [] = true
is_empty (c ∷ cs) = false

-- One round of the loop of `dedupeCandidates`.
unfoldable pub dedupe_step : (Text → Text) → Deduped → Candidate → Deduped
unfolding has_key is_empty
dedupe_step lower d c =
    let key = normalize_email lower c.email in
    if is_empty key
    then d
    else if has_key key d.unique
    then record d { duplicates_removed = suc d.duplicates_removed }
    else record d { unique = d.unique ++ record { candidate = c; email_normalized = key } ∷ [] }

dedupe_from : (Text → Text) → Deduped → List Candidate → Deduped
dedupe_from lower d [] = d
dedupe_from lower d (c ∷ cs) = dedupe_from lower (dedupe_step lower d c) cs

unfoldable pub dedupe_candidates : (Text → Text) → List Candidate → Deduped
unfolding dedupe_from dedupe_step
dedupe_candidates lower cs = dedupe_from lower (record { unique = []; duplicates_removed = 0 }) cs

pub find_contact : ℕ → List Contact → Option Contact
find_contact i [] = none
find_contact i (c ∷ cs) = if c.id == i then some c else find_contact i cs

-- `contact_list_members INNER JOIN contacts WHERE list_id IN (...)`.
pub members_of : List ℕ → List Contact → List Membership → List Contact
members_of lists contacts [] = []
members_of lists contacts (m ∷ ms) =
    let rest = members_of lists contacts ms in
    if mem_id m.list_id lists
    then elim (find_contact m.contact_id contacts) [ none ↦ rest | some c ↦ c ∷ rest ]
    else rest

unfoldable pub load_candidates : List ℕ → Store → List Candidate
unfolding find_contact members_of sort
load_candidates lists s =
    map
      (λ (c : Contact). record {
        contact_id = some c.id;
        email = c.email;
        first_name = c.first_name;
        last_name = c.last_name;
        custom_fields = c.custom_fields;
      })
      (sort (λ a b. leb a.created_at b.created_at) (members_of lists s.contacts s.members))

pub record AudiencePreview : Type 0 where
  pub total_memberships : ℕ
  pub unique_contacts : ℕ
  pub duplicates_removed : ℕ
  pub suppressed : ℕ
  pub final_recipients : ℕ

unfoldable pub preview_audience : Runtime → List ℕ → Store → AudiencePreview
unfolding load_candidates dedupe_candidates filter_suppressed
preview_audience rt lists s =
    let candidates = load_candidates lists s in
    let d = dedupe_candidates rt.lower candidates in
    let suppressed = filter_suppressed (map (λ (u : Unique). u.email_normalized) d.unique) s in
    record {
      total_memberships = length candidates;
      unique_contacts = length d.unique;
      duplicates_removed = d.duplicates_removed;
      suppressed = length suppressed;
      final_recipients = length d.unique - length suppressed;
    }

-- The lists that a campaign has selected.
unfoldable pub lists_of : ℕ → List CampaignList → List ℕ
lists_of i ls = map (λ (l : CampaignList). l.list_id) (select (λ l. l.campaign_id == i) ls)

-- UNIQUE (campaign_id, email_normalized).
unfoldable pub has_row : ℕ → Text → List Recipient → Bool
has_row i email = any (λ r. r.campaign_id == i && text_eq r.email_normalized email)

unfoldable pub new_row : Runtime → ℕ → ℕ → ℕ → Unique → Recipient
new_row rt now i n u = record {
  id = n;
  campaign_id = i;
  contact_id = u.contact_id;
  email = u.email;
  email_normalized = u.email_normalized;
  first_name = u.first_name;
  last_name = u.last_name;
  custom_fields = u.custom_fields;
  delivery_status = DeliveryStatus.queued;
  attempts = 0;
  last_attempt_at = none;
  next_attempt_at = now;
  sent_at = none;
  last_error = none;
  lease_expires_at = none;
  claimed_by = none;
  tracking_token = rt.tracking_token n;
  unsubscribe_token = rt.unsubscribe_token n;
  first_opened_at = none;
  last_opened_at = none;
  open_count = 0;
  created_at = now;
}

-- INSERT ... ON CONFLICT DO NOTHING of one row: whether it was inserted, and the store.
unfoldable pub insert_recipient : Runtime → ℕ → ℕ → Unique → Store → Store
unfolding has_row new_row
insert_recipient rt now i u s = if has_row i u.email_normalized s.recipients then s else record s {
  recipients = s.recipients ++ new_row rt now i s.next_id u ∷ [];
  next_id = suc s.next_id;
}

-- The chunks of 500 are one sequence of inserts in one transaction.
insert_recipients : Runtime → ℕ → ℕ → List Unique → Store → Store
insert_recipients rt now i [] s = s
insert_recipients rt now i (u ∷ us) s =
    insert_recipients rt now i us (insert_recipient rt now i u s)

unfoldable pub belongs_to : ℕ → Recipient → Bool
belongs_to i r = r.campaign_id == i

pub record GenerateResult : Type 0 where
  pub inserted : ℕ
  pub skipped_suppressed : ℕ
  pub duplicates_removed : ℕ
  pub total : ℕ

-- The addresses to write: the unique candidates that are not suppressed.
unfoldable pub sendable_for : Runtime → ℕ → Store → List Unique
unfolding lists_of
sendable_for rt i s =
    select (λ u. not (is_suppressed s.suppressions u.email_normalized))
      (dedupe_candidates rt.lower (load_candidates (lists_of i s.campaign_lists) s)).unique

unfoldable pub generate_recipients : Runtime → ℕ → ℕ → Store → GenerateResult × Store
unfolding insert_recipients belongs_to
generate_recipients rt now i s =
    let d = dedupe_candidates rt.lower (load_candidates (lists_of i s.campaign_lists) s) in
    let s' = insert_recipients rt now i (sendable_for rt i s) s in
    let total = count_where (belongs_to i) s'.recipients in
    (
      record {
        inserted = length s'.recipients - length s.recipients;
        skipped_suppressed =
            count_where (λ u. is_suppressed s.suppressions u.email_normalized) d.unique;
        duplicates_removed = d.duplicates_removed;
        total = total;
      },
      record s' {
        campaigns =
            update_where (λ c. c.id == i)
              (λ c. record c { total_recipients = total; updated_at = now }) s'.campaigns;
      },
    )

pub record CampaignStats : Type 0 where
  pub total : ℕ
  pub queued : ℕ
  pub sending : ℕ
  pub sent : ℕ
  pub failed : ℕ
  pub suppressed : ℕ
  pub cancelled : ℕ
  pub unique_opens : ℕ
  pub total_opens : ℕ

abbrev pub sum_of {ℓ} : {A : Type ℓ} → (A → ℕ) → List A → ℕ
sum_of f [] = 0
sum_of f (x ∷ xs) = f x + sum_of f xs

-- The counts of `campaignStats`, over the rows of the campaign.
unfoldable pub campaign_stats : ℕ → Store → CampaignStats
unfolding belongs_to
campaign_stats i s =
    let rows = select (belongs_to i) s.recipients in
    let with_status =
      λ (d : DeliveryStatus). count_where (λ r. delivery_is r.delivery_status d) rows in
    record {
      total = length rows;
      queued = with_status DeliveryStatus.queued;
      sending = with_status DeliveryStatus.sending;
      sent = with_status DeliveryStatus.sent;
      failed = with_status DeliveryStatus.failed;
      suppressed = with_status DeliveryStatus.suppressed;
      cancelled = with_status DeliveryStatus.cancelled;
      unique_opens = count_where (λ r. is_some r.first_opened_at) rows;
      total_opens = sum_of (λ r. r.open_count) rows;
    }

-- The share of the delivered messages that were opened, as a fraction; 0 of 1 when none was.
unfoldable pub open_rate : CampaignStats → ℕ × ℕ
open_rate st = if ltb 0 st.sent then (st.unique_opens, st.sent) else (0, 1)

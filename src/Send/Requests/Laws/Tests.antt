-- ===== src/Send/Requests/Laws/Tests.antt =====
-- The draft is scheduled, for the first of January 2030, and the scheduled campaign is moved to it.
use ai_email_broadcast_hw.Base.{ℕ, ◌≡◌, refl, true, Option, none, some, [], ◌∷◌, Text}
use ai_email_broadcast_hw.Api.{ok}
use ai_email_broadcast_hw.Store.{Store, find_campaign}
use ai_email_broadcast_hw.Store.Status.{CampaignStatus, campaign_is}
use ai_email_broadcast_hw.Samples.{store, campaign, runtime}
use ai_email_broadcast_hw.Base.{text_eq}
use ai_email_broadcast_hw.Address.{normalize_email, lower_ascii}
use ai_email_broadcast_hw.Queue.{is_suppressed}
use ai_email_broadcast_hw.Audience.{lists_of, preview_audience, load_candidates, dedupe_candidates}
use ai_email_broadcast_hw.Campaign.{update_campaign}
use ai_email_broadcast_hw.Schedule.Calendar.{WallClock}
use ai_email_broadcast_hw.Schedule.Iso.{to_iso_string}
use ai_email_broadcast_hw.Send.Requests.{Body, scheduled_at, request_schedule, request_move}
use ai_email_broadcast_hw.Send.Requests.Laws.{
  IsScheduled, is_movable, request_schedule-IsScheduled, request_move-IsScheduled,
}

abbrev filled : Text
filled = b'x' ∷ []

abbrev with_draft : Store
with_draft = record store {
  campaigns =
      record (campaign 3 CampaignStatus.draft none) { subject = filled; compiled_html = filled }
      ∷ campaign 4 CampaignStatus.scheduled (some 900)
      ∷ [];
  campaign_lists = record { campaign_id = 3; list_id = 5 } ∷ [];
}

abbrev new_year : WallClock
new_year = record { year = 2030; month = 1; day = 1; hour = 0; minute = 0; second = 0 }

abbrev body : Body
body = scheduled_at (some (to_iso_string new_year 0))

abbrev parse_date : Text → Option ℕ
parse_date t = some 9000

draft_is_scheduled :
    (request_schedule runtime parse_date 500 600 true (λ s. s) body 3 with_draft).0 ≡ ok 9000
unfolding request_schedule find_campaign preview_audience load_candidates dedupe_candidates
    normalize_email lower_ascii text_eq is_suppressed to_iso_string lists_of
draft_is_scheduled = refl

is_moved : (request_move parse_date 500 600 600 (λ s. s) body 4 with_draft).0 ≡ ok 9000
unfolding request_move find_campaign to_iso_string update_campaign
is_moved = refl

request_schedule-IsSet_example :
    IsScheduled parse_date 600
      (λ c. campaign_is c.status CampaignStatus.draft)
      body
      3
      with_draft
      with_draft
      (request_schedule runtime parse_date 500 600 true (λ s. s) body 3 with_draft)
request_schedule-IsSet_example =
    request_schedule-IsScheduled parse_date 600 runtime 500 true (λ s. s) body 3 with_draft

request_move-IsSet_example :
    IsScheduled parse_date 600
      (is_movable 600)
      body
      4
      with_draft
      with_draft
      (request_move parse_date 500 600 600 (λ s. s) body 4 with_draft)
request_move-IsSet_example =
    request_move-IsScheduled parse_date 600 500 600 (λ s. s) body 4 with_draft

-- ===== src/Send/Requests.antt =====
-- The two requests about a campaign's schedule, src/app/api/campaigns/[id]/schedule/route.ts, with
-- the time read by `parseScheduledAt`. `clock` is the application's clock, `db_clock` what the
-- database compares with, and `meanwhile` what other requests write between the first read and the
-- write.
pub mod Laws
use ai_email_broadcast_hw.Base.{
  ℕ, Bool, true, false, not, ◌&&◌, ◌||◌, Option, none, some, List, [], ◌∷◌, Text, String, ◌==◌,
  if◌then◌else◌,
}
use ai_email_broadcast_hw.Api.{Response, ok, refused, conflict, bad_request, not_found}
use ai_email_broadcast_hw.Store.{Store, Campaign, find_campaign}
use ai_email_broadcast_hw.Store.Status.{CampaignStatus, campaign_is}
use ai_email_broadcast_hw.Audience.{Runtime}
use ai_email_broadcast_hw.Campaign.{Rescheduled, moved, reschedule}
use ai_email_broadcast_hw.Schedule.{ErrorCode, ScheduleResult}
use ai_email_broadcast_hw.Schedule.Iso.{parse_scheduled_at}
use ai_email_broadcast_hw.Send.{
  Parsed, instant, invalid, read_time, and_then, value_or, schedule_draft,
}

-- `scheduleErrorKey`: the dictionary has no text for NONEXISTENT and AMBIGUOUS.
unfoldable pub schedule_error_key : ErrorCode → String
schedule_error_key ErrorCode.required = "err.schedule.SCHEDULE_REQUIRED"
schedule_error_key ErrorCode.format = "err.schedule.SCHEDULE_FORMAT"
schedule_error_key ErrorCode.invalid = "err.schedule.SCHEDULE_INVALID"
schedule_error_key ErrorCode.nonexistent = "err.schedule.SCHEDULE_INVALID"
schedule_error_key ErrorCode.ambiguous = "err.schedule.SCHEDULE_INVALID"
schedule_error_key ErrorCode.past = "err.schedule.SCHEDULE_PAST"

unfoldable pub parsed_of : ScheduleResult → Parsed
unfolding schedule_error_key
parsed_of (ScheduleResult.ok d) = instant d
parsed_of (ScheduleResult.failed code f cs) = invalid (schedule_error_key code)

-- The body of a request: no JSON, or an object with its `scheduledAt`, none where that is no string.
pub data Body : Type 0 where
  no_json : Body
  scheduled_at : Option Text → Body

unfoldable pub read_schedule : (Text → Option ℕ) → ℕ → Body → Parsed
unfolding parse_scheduled_at parsed_of
read_schedule parse_date clock no_json = invalid "err.json"
read_schedule parse_date clock (scheduled_at t) = parsed_of (parse_scheduled_at parse_date t clock)

-- POST.
unfoldable pub request_schedule :
    Runtime
    → (Text → Option ℕ)
    → ℕ
    → ℕ
    → Bool
    → (Store → Store)
    → Body
    → ℕ
    → Store
    → Response ℕ × Store
unfolding schedule_draft read_schedule
request_schedule rt parse_date now clock has_smtp meanwhile body i s =
    schedule_draft rt now has_smtp meanwhile (read_schedule parse_date clock body) i s

-- The campaign, if it is there and SCHEDULED.
unfoldable pub find_scheduled : ℕ → Store → Response Campaign
find_scheduled i s = elim (find_campaign i s.campaigns) [
  | none ↦ not_found "err.campaign.notFound"
  | some c ↦
      if campaign_is c.status CampaignStatus.scheduled
      then ok c
      else conflict "err.campaign.rescheduleState"
]

abbrev pub answer_move : ℕ → Rescheduled × Store → Response ℕ × Store
answer_move date (moved c, s) = (ok (value_or date c.scheduled_at), s)
answer_move date (Rescheduled.not_found, s) = (not_found "err.campaign.notFound", s)
answer_move date (Rescheduled.in_conflict status due, s) =
    (conflict (if due then "err.campaign.rescheduleDue" else "err.campaign.rescheduleState"), s)

-- PATCH.
unfoldable pub request_move :
    (Text → Option ℕ) → ℕ → ℕ → ℕ → (Store → Store) → Body → ℕ → Store → Response ℕ × Store
unfolding find_scheduled reschedule read_schedule
request_move parse_date now clock db_clock meanwhile body i s =
    and_then (find_scheduled i s) s (λ c.
      and_then (read_time (read_schedule parse_date clock body)) s
        (λ date. answer_move date (reschedule now db_clock i date (meanwhile s))))

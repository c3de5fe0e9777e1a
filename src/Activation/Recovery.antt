-- ===== src/Activation/Recovery.antt =====
-- The repair of campaigns that are QUEUED without a queue, `recoverStuckCampaigns` of
-- src/lib/campaign-activation.ts. The n-th campaign of the page has the n-th `Moment` of the world.
pub mod Laws
pub mod Cured
mod Tests
use ai_email_broadcast_hw.Base.{
  ℕ, zero, suc, ◌+◌, Bool, true, false, not, ◌&&◌, ◌||◌, Option, none, some, List, [], ◌∷◌, ◌++◌,
  ltb, leb, ◌==◌, if◌then◌else◌, select, take, update_where, map, length,
}
use ai_email_broadcast_hw.Base.Sort.{sort}
use ai_email_broadcast_hw.Store.{Store, Campaign, seconds}
use ai_email_broadcast_hw.Store.Status.{CampaignStatus, campaign_is}
use ai_email_broadcast_hw.Store.Lookup.{first}
use ai_email_broadcast_hw.Queue.{has_queue}
use ai_email_broadcast_hw.Audience.{Runtime, generate_recipients}
use ai_email_broadcast_hw.Campaign.{close_campaign}
use ai_email_broadcast_hw.Activation.Cycle.{Moment}
use ai_email_broadcast_hw.Activation.Failure.{Failure, is_connection_failure}

-- STUCK_CAMPAIGN_GRACE_SECONDS, if it is a number from 0 on.
unfoldable pub stuck_grace_seconds : Option ℕ → ℕ
stuck_grace_seconds none = 300
stuck_grace_seconds (some n) = n

pub data RecoveryOutcome : Type 0 where
  recovered : ℕ → RecoveryOutcome
  cancelled skipped : RecoveryOutcome
  failed : Failure → RecoveryOutcome

pub record RecoveryRecord : Type 0 where
  pub campaign_id : ℕ
  pub outcome : RecoveryOutcome

pub record RecoveryResult : Type 0 where
  pub found : ℕ
  pub recovered : ℕ
  pub cancelled : ℕ
  pub skipped : ℕ
  pub failed : ℕ
  pub records : List RecoveryRecord

unfoldable pub is_stuck : ℕ → ℕ → Store → Campaign → Bool
is_stuck grace now s c =
    campaign_is c.status CampaignStatus.queued
    && leb (c.updated_at + seconds grace) now
    && not (has_queue c.id s.recipients)

-- `ORDER BY updated_at, id`.
unfoldable pub staler : Campaign → Campaign → Bool
staler c d = ltb c.updated_at d.updated_at || (c.updated_at == d.updated_at && leb c.id d.id)

unfoldable pub stuck_page : ℕ → ℕ → ℕ → Store → List ℕ
unfolding is_stuck staler sort
stuck_page grace now limit s =
    map (λ (c : Campaign). c.id)
      (take limit (sort staler (select (is_stuck grace now s) s.campaigns)))

-- The campaign under its row lock.
unfoldable pub hold : ℕ → (ℕ → Bool) → List Campaign → Option Campaign
hold i locked cs =
    first (
      select (λ c. c.id == i && campaign_is c.status CampaignStatus.queued && not (locked c.id)) cs)

-- The transaction that repairs one campaign.
unfoldable pub repair : Runtime → Moment → ℕ → Store → RecoveryOutcome × Store
unfolding hold
repair rt m i s = elim (hold i m.locked s.campaigns) [
  | none ↦ (skipped, s)
  | some c ↦
      let (result, written) = generate_recipients rt m.now i s in
      if has_queue i s.recipients
      then (skipped, s)
      else if result.total == 0
      then (
        cancelled,
        record written {
          campaigns = update_where (λ c. c.id == i) (close_campaign m.now) written.campaigns;
        },
      )
      else (recovered result.total, written)
]

-- A transaction that throws is rolled back.
unfoldable pub try_repair : Runtime → Moment → ℕ → Store → RecoveryOutcome × Store
unfolding repair
try_repair rt m i s = elim m.throws [ some e ↦ (failed e, s) | none ↦ repair rt m i s ]

abbrev pub count_outcome : ℕ → RecoveryOutcome → RecoveryResult → RecoveryResult
count_outcome i (recovered n) r = record r {
  recovered = suc r.recovered;
  records = r.records ++ record { campaign_id = i; outcome = recovered n } ∷ [];
}
count_outcome i cancelled r = record r {
  cancelled = suc r.cancelled;
  records = r.records ++ record { campaign_id = i; outcome = cancelled } ∷ [];
}
count_outcome i skipped r = record r {
  skipped = suc r.skipped;
  records = r.records ++ record { campaign_id = i; outcome = skipped } ∷ [];
}
count_outcome i (failed e) r = record r {
  failed = suc r.failed;
  records = r.records ++ record { campaign_id = i; outcome = failed e } ∷ [];
}

abbrev pub ends_repair : RecoveryOutcome → Bool
ends_repair (failed e) = is_connection_failure e
ends_repair (recovered n) = false
ends_repair cancelled = false
ends_repair skipped = false

-- The `for` loop, from the n-th campaign on.
unfoldable pub repair_all :
    Runtime → (ℕ → Moment) → ℕ → List ℕ → RecoveryResult → Store → RecoveryResult × Store
unfolding try_repair
repair_all rt w n [] r s = (r, s)
repair_all rt w n (i ∷ is) r s =
    let m = w n in
    let (outcome, s') = try_repair rt m i (m.meanwhile s) in
    let r' = count_outcome i outcome r in
    let rest = repair_all rt w (suc n) is r' s' in
    if m.late then (r, s) else if ends_repair outcome then (r', s') else rest

abbrev pub no_recovery : RecoveryResult
no_recovery = record {
  found = 0;
  recovered = 0;
  cancelled = 0;
  skipped = 0;
  failed = 0;
  records = [];
}

-- `page` is the moment at which the stuck campaigns are looked for.
unfoldable pub recover_stuck_campaigns :
    Runtime → Moment → (ℕ → Moment) → ℕ → ℕ → Store → RecoveryResult × Store
unfolding repair_all stuck_page
recover_stuck_campaigns rt page w grace limit s =
    let stuck = stuck_page grace page.now limit (page.meanwhile s) in
    elim page.throws [
      | some e ↦ (record no_recovery { failed = 1 }, page.meanwhile s)
      | none ↦
          repair_all rt w 0 stuck (record no_recovery { found = length stuck }) (page.meanwhile s)
    ]

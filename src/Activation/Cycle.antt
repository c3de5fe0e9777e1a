-- ===== src/Activation/Cycle.antt =====
-- One scheduler cycle, `activateDueCampaigns` of src/lib/campaign-activation.ts. What the world
-- decides is a `World`: for the n-th campaign that is tried, and for the page that is read when n
-- have been tried, a `Moment` with the instants, the rows that other transactions hold, what
-- other processes have written in the meantime, and whether the statement throws.
pub mod Records
pub mod Bounds
pub mod Ids
pub mod Ends
pub mod Complete
mod Tests
use ai_email_broadcast_hw.Base.{
  ℕ, zero, suc, ◌+◌, ◌-◌, Bool, true, false, not, ◌&&◌, ◌||◌, Option, none, some, List, [], ◌∷◌,
  ◌++◌, ltb, leb, ◌==◌, if◌then◌else◌, select, take, length, mem_id,
}
use ai_email_broadcast_hw.Base.Sort.{sort}
use ai_email_broadcast_hw.Store.{Store, Campaign}
use ai_email_broadcast_hw.Store.Status.{CampaignStatus, campaign_is}
use ai_email_broadcast_hw.Audience.{Runtime, GenerateResult}
use ai_email_broadcast_hw.Activation.{
  QueueSource, from_scheduled, QueueResult, queued, unavailable, is_ready, queue_campaign,
  cancel_empty_campaign,
}
use ai_email_broadcast_hw.Activation.Failure.{Failure, is_connection_failure}

pub data ActivationOutcome : Type 0 where
  activated skipped no_recipients failed : ActivationOutcome

pub record ActivationRecord : Type 0 where
  pub campaign_id : ℕ
  pub scheduled_at : Option ℕ
  pub outcome : ActivationOutcome
  pub recipients : Option ℕ
  -- The error that was thrown; the source keeps its message.
  pub error : Option Failure

pub record ActivationResult : Type 0 where
  pub due : ℕ
  pub activated : ℕ
  pub skipped : ℕ
  pub no_recipients : ℕ
  pub failed : ℕ
  pub connection_lost : Bool
  pub records : List ActivationRecord

pub record Moment : Type 0 where
  pub late : Bool
  pub now : ℕ
  pub clock : ℕ
  pub locked : ℕ → Bool
  pub meanwhile : Store → Store
  -- What the statement throws, and what the closing of an empty campaign throws.
  pub throws : Option Failure
  pub close_throws : Option Failure

pub record World : Type 0 where
  pub page_moment : ℕ → Moment
  pub try_moment : ℕ → Moment

-- The variables of the function: its result, the set of the tried campaigns (the latest first), and
-- the database.
pub record Cycle : Type 0 where
  pub result : ActivationResult
  pub tried : List ℕ
  pub store : Store

-- The campaigns that this cycle has used its limit up for.
unfoldable pub started : ActivationResult → ℕ
started r = r.activated + r.no_recipients

-- SCHEDULER_BATCH_LIMIT, if it is a whole number.
unfoldable pub batch_limit : Option ℕ → ℕ
batch_limit none = 100
batch_limit (some n) = if ltb 0 n then n else 100

-- `ORDER BY scheduled_at, id`; a row of the page has a `scheduled_at`.
unfoldable pub sooner : Campaign → Campaign → Bool
sooner c d = elim c.scheduled_at [
  | none ↦ elim d.scheduled_at [ none ↦ leb c.id d.id | some b ↦ false ]
  | some a ↦ elim d.scheduled_at [ none ↦ true | some b ↦ ltb a b || (a == b && leb c.id d.id) ]
]

unfoldable pub due_page : ℕ → List ℕ → ℕ → Store → List Campaign
unfolding sort sooner
due_page clock tried limit s = take limit (
    sort sooner
      (select (λ c. is_ready from_scheduled clock c && not (mem_id c.id tried)) s.campaigns))

-- What an error adds to the result.
abbrev pub fail : Failure → Campaign → ActivationResult → ActivationResult
fail e c r = record r {
  failed = suc r.failed;
  connection_lost = is_connection_failure e;
  records =
      r.records
      ++ record {
        campaign_id = c.id;
        scheduled_at = c.scheduled_at;
        outcome = failed;
        recipients = none;
        error = some e;
      }
        ∷ [];
}

abbrev pub note : ActivationOutcome → Option ℕ → Campaign → ActivationResult → ActivationResult
note outcome recipients c r = record r {
  records =
      r.records
      ++ record {
        campaign_id = c.id;
        scheduled_at = c.scheduled_at;
        outcome = outcome;
        recipients = recipients;
        error = none;
      }
        ∷ [];
}

-- The branches after `queueCampaign` has answered.
unfoldable pub conclude :
    Moment → Campaign → ActivationResult → QueueResult × Store → ActivationResult × Store
conclude m c r (queued at g, s) =
    (note activated (some g.total) c (record r { activated = suc r.activated }), s)
conclude m c r (unavailable, s) = (note skipped none c (record r { skipped = suc r.skipped }), s)
conclude m c r (QueueResult.no_recipients, s) = elim m.close_throws [
  | some e ↦ (fail e c r, s)
  | none ↦ (
    note no_recipients none c (record r { no_recipients = suc r.no_recipients }),
    cancel_empty_campaign m.now c.id s,
  )
]

-- The `try` block and its `catch`: a transaction that throws is rolled back.
unfoldable pub attempt :
    Runtime → Moment → Campaign → ActivationResult → Store → ActivationResult × Store
unfolding conclude
attempt rt m c r s = elim m.throws [
  | some e ↦ (fail e c r, s)
  | none ↦ conclude m c r (queue_campaign rt m.now m.clock m.locked c.id from_scheduled s)
]

-- One round of the `for` loop, for a candidate.
unfoldable pub activate_one : Runtime → Moment → Campaign → Cycle → Cycle
unfolding attempt
activate_one rt m c k =
    let (r, s) = attempt rt m c k.result (m.meanwhile k.store) in
    record { result = r; tried = c.id ∷ k.tried; store = s }

-- The `for` loop over a page.
unfoldable pub activate_page : Runtime → World → List Campaign → Cycle → Cycle
activate_page rt w [] k = k
activate_page rt w (c ∷ cs) k =
    let m = w.try_moment (length k.tried) in
    let k' = activate_one rt m c k in
    let rest = activate_page rt w cs k' in
    if m.late then k else if k'.result.connection_lost then k' else rest

-- What reading a page leads to: its error ends the cycle, and so does an empty page.
unfoldable pub after_read :
    Option Failure → List Campaign → Cycle → Cycle → Option Cycle → Option Cycle
after_read (some e) page k seen rest = some (record k {
  result = record k.result {
    failed = suc k.result.failed;
    connection_lost = is_connection_failure e;
  };
})
after_read none [] k seen rest = some seen
after_read none (c ∷ cs) k seen rest = rest

-- The `while` loop; `none` means that the fuel ran out.
unfoldable pub activate_rounds : Runtime → World → ℕ → ℕ → Cycle → Option Cycle
unfolding activate_page after_read
activate_rounds rt w limit zero k = none
activate_rounds rt w limit (suc fuel) k =
    let m = w.page_moment (length k.tried) in
    let s = m.meanwhile k.store in
    let page = due_page m.clock k.tried (limit - started k.result) s in
    let seen = record k {
      result = record k.result { due = k.result.due + length page };
      store = s;
    } in
    let rest = activate_rounds rt w limit fuel (activate_page rt w page seen) in
    if not (ltb (started k.result) limit) || k.result.connection_lost
    then some k
    else if m.late
    then some k
    else after_read m.throws page (record k { store = s }) seen rest

abbrev pub no_activation : ActivationResult
no_activation = record {
  due = 0;
  activated = 0;
  skipped = 0;
  no_recipients = 0;
  failed = 0;
  connection_lost = false;
  records = [];
}

unfoldable pub activate_due_campaigns : Runtime → World → ℕ → ℕ → Store → Option Cycle
unfolding activate_rounds
activate_due_campaigns rt w limit fuel s =
    activate_rounds rt w limit fuel (record { result = no_activation; tried = []; store = s })

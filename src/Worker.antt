-- ===== src/Worker.antt =====
-- The worker of src/lib/worker.ts: the rounds of `runTick`. Each round that starts before the
-- deadline is a `Round`, which holds what the world decides: the instants, the rows that other
-- transactions hold, and the turns of the batch.
pub mod Batch
pub mod Quota
pub mod Settle
pub mod Welcome
pub mod Tick
pub mod Loop
mod Tests
use ai_email_broadcast_hw.Base.{
  ℕ, suc, ◌+◌, Bool, true, false, not, Option, none, some, List, [], ◌∷◌, map, String, Text, ◌==◌,
  if◌then◌else◌, any, drop, length, text_eq, select,
}
use ai_email_broadcast_hw.Store.{Store, Recipient}
use ai_email_broadcast_hw.Queue.{
  Config, ClaimedRecipient, claim_recipients, count_sent_in_window, mark_campaigns_started,
  filter_suppressed, mark_suppressed, log_send_attempt, refund_send_attempts,
}
use ai_email_broadcast_hw.Rate.{Fraction, RateWindow, BatchOptions, batch_size, safety_factor}
use Batch.{Turn, is_set, send_batch, attempted, id_of}

pub record WorkerOptions : Type 0 where
  pub queue : Config
  pub worker_id : String
  pub rate : RateWindow
  -- SMTP_RATE_SAFETY_FACTOR, if it is a number.
  pub env_factor : Option Fraction
  pub batch_cap : ℕ
  pub concurrency : ℕ
  pub tick_interval_seconds : ℕ

pub record Round : Type 0 where
  pub now : ℕ
  pub locked : ℕ → Bool
  pub batch_turns : List Turn

pub record Tally : Type 0 where
  pub claimed : ℕ
  pub sent : ℕ
  pub failed : ℕ
  pub retried : ℕ
  pub suppressed : ℕ
  pub rate_limited : Bool

pub record Triage : Type 0 where
  pub sendable : List ClaimedRecipient
  pub held_back : ℕ
  pub store : Store

abbrev pub has_text : List Text → Text → Bool
has_text ts t = any (λ x. text_eq x t) ts

abbrev pub suppression_reason : String
suppression_reason = "Address is on the suppression list"

-- The loop that sets suppressed addresses aside.
unfoldable pub triage : List Text → List ClaimedRecipient → Store → Triage
triage suppressed [] s = record { sendable = []; held_back = 0; store = s }
triage suppressed (c ∷ cs) s =
    let kept = triage suppressed cs s in
    let held = triage suppressed cs (mark_suppressed (id_of c) suppression_reason s) in
    if has_text suppressed c.row.email_normalized
    then record held { held_back = suc held.held_back }
    else record kept { sendable = c ∷ kept.sendable }

-- `[...new Set(ids)]`.
abbrev pub distinct_ids : List ℕ → List ℕ
distinct_ids [] = []
distinct_ids (i ∷ is) = i ∷ select (λ j. not (j == i)) (distinct_ids is)

-- The factor of the rate window, or that of the environment.
unfoldable pub factor_of : WorkerOptions → Fraction
factor_of o = elim o.rate.window_factor [ none ↦ safety_factor o.env_factor | some f ↦ f ]

unfoldable pub options_for : WorkerOptions → ℕ → BatchOptions
options_for o sent_in_window = record {
  max_per_hour = o.rate.max_emails;
  sent_in_last_hour = sent_in_window;
  batch_cap = o.batch_cap;
  tick_interval_seconds = o.tick_interval_seconds;
  factor = factor_of o;
  window_seconds = o.rate.window_seconds;
}

unfoldable pub round_limit : WorkerOptions → ℕ → Store → ℕ
unfolding options_for
round_limit o now s = batch_size (options_for o (count_sent_in_window now o.rate.window_seconds s))

-- What a round does with the rows that it has claimed: whether the loop goes on, the counts, and the
-- store.
pub record Progress : Type 0 where
  pub go_on : Bool
  pub tally : Tally
  pub store : Store

-- The rows that are to be sent, once the suppressed ones have been set aside.
unfoldable pub set_aside : ℕ → List ClaimedRecipient → Store → Triage
unfolding triage
set_aside now claimed s =
    let started =
      (mark_campaigns_started now
        (distinct_ids (map (λ (c : ClaimedRecipient). c.row.campaign_id) claimed)) s).1 in
    triage
      (filter_suppressed (map (λ (c : ClaimedRecipient). c.row.email_normalized) claimed) started)
      claimed started

unfoldable pub deliver : WorkerOptions → Round → Tally → Triage → Progress
deliver o env tally t = elim t.sendable [
  | [] ↦ record { go_on = true; tally = tally; store = t.store }
  | c ∷ cs ↦
      let (reservations, reserved) = log_send_attempt env.now (length (c ∷ cs)) t.store in
      let b = send_batch o.queue o.concurrency env.batch_turns (c ∷ cs) reserved in
      let counted = record tally {
        sent = tally.sent + b.sent;
        failed = tally.failed + b.failed;
        retried = tally.retried + b.retried;
      } in
      if is_set b.auth_failure
      then record {
        go_on = false;
        tally = counted;
        store = refund_send_attempts (drop (attempted b) reservations) b.store;
      }
      else record { go_on = true; tally = counted; store = b.store }
]

unfoldable pub tick_round : WorkerOptions → Round → Tally → Store → Progress
unfolding set_aside deliver round_limit
tick_round o env tally s =
    let limit = round_limit o env.now s in
    let (claimed, held) = claim_recipients o.queue o.worker_id limit env.now env.locked s in
    let t = set_aside env.now claimed held in
    if limit == 0
    then record { go_on = false; tally = record tally { rate_limited = true }; store = s }
    else if length claimed == 0
    then record { go_on = false; tally = tally; store = held }
    else deliver o env
        (record tally {
          claimed = tally.claimed + length claimed;
          suppressed = tally.suppressed + t.held_back;
        })
        t

-- The `while` loop, over the rounds that start before the deadline.
unfoldable pub tick_rounds : WorkerOptions → List Round → Tally → Store → Progress
unfolding tick_round
tick_rounds o [] tally s = record { go_on = true; tally = tally; store = s }
tick_rounds o (env ∷ envs) tally s =
    let p = tick_round o env tally s in
    let rest = tick_rounds o envs p.tally p.store in if p.go_on then rest else p

-- ===== src/Worker/Batch.antt =====
-- `sendBatch` of src/lib/worker.ts. Its concurrent loops share a queue and a flag and run on one
-- thread: a history of turns, in each of which one loop takes the next recipient or one message
-- that was handed to SMTP comes to its end.
use ai_email_broadcast_hw.Base.{
  ℕ, zero, suc, ◌+◌, Bool, true, false, ◌&&◌, ◌||◌, Option, none, some, List, [], ◌∷◌, ◌++◌, String,
  ◌==◌, leb, ltb, if◌then◌else◌, min, max, length,
}
use Prim.Native.String.{count}
use ai_email_broadcast_hw.Store.{Store}
use ai_email_broadcast_hw.Queue.{
  Config, ClaimedRecipient, release_claims, mark_sent, mark_failed, schedule_retry,
}
use ai_email_broadcast_hw.Rate.{retry_delay_seconds, should_retry}

-- The codes that `isTransportFailure` and `isPermanentSmtpError` tell apart.
pub data ErrorCode : Type 0 where
  eauth econnection esocket etimedout edns enotfound eenvelope emessage other_code : ErrorCode

pub record SmtpError : Type 0 where
  pub code : Option ErrorCode
  pub response_code : Option ℕ
  -- What `sanitizeErrorMessage` makes of it.
  pub message : String

abbrev pub is_transport_code : ErrorCode → Bool
is_transport_code eauth = true
is_transport_code econnection = true
is_transport_code esocket = true
is_transport_code etimedout = true
is_transport_code edns = true
is_transport_code enotfound = true
is_transport_code eenvelope = false
is_transport_code emessage = false
is_transport_code other_code = false

unfoldable pub is_transport_failure : SmtpError → Bool
is_transport_failure e =
    elim e.code [ none ↦ false | some k ↦ is_transport_code k ]
    || elim e.response_code [ none ↦ false | some n ↦ n == 421 ]

abbrev pub is_message_code : ErrorCode → Bool
is_message_code eenvelope = true
is_message_code emessage = true
is_message_code eauth = false
is_message_code econnection = false
is_message_code esocket = false
is_message_code etimedout = false
is_message_code edns = false
is_message_code enotfound = false
is_message_code other_code = false

-- `isPermanentSmtpError` of src/lib/mailer.ts.
unfoldable pub is_permanent_smtp_error : SmtpError → Bool
is_permanent_smtp_error e = elim e.response_code [
  | some n ↦ leb 500 n && ltb n 600
  | none ↦ elim e.code [ none ↦ false | some k ↦ is_message_code k ]
]

-- How handing over one message ends.
pub data Attempt : Type 0 where
  delivered : Attempt
  thrown : SmtpError → Attempt

pub record BatchState : Type 0 where
  pub waiting : List ClaimedRecipient
  pub flying : List ClaimedRecipient
  pub auth_failure : Option String
  pub sent : ℕ
  pub failed : ℕ
  pub retried : ℕ
  pub store : Store

pub data Turn : Type 0 where
  takes : Turn
  -- The message at this place of those under way, at this instant.
  finishes : ℕ → ℕ → Attempt → Turn

-- A message is there, and is not empty: the tests `if (authFailure)`.
abbrev pub is_set : Option String → Bool
is_set none = false
is_set (some message) = ltb 0 (count message)

abbrev pub id_of : ClaimedRecipient → ℕ
id_of c = c.row.id

-- One loop's `queue.shift()`, with the release of what a broken transport leaves over. `loops` loops
-- run, so that no more messages are under way.
unfoldable pub take_turn : ℕ → BatchState → BatchState
take_turn loops b = elim b.waiting [
  | [] ↦ b
  | c ∷ cs ↦
      if is_set b.auth_failure
      then record b { waiting = cs; store = release_claims (id_of c ∷ []) b.store }
      else if ltb (length b.flying) loops
      then record b { waiting = cs; flying = b.flying ++ c ∷ [] }
      else b
]

-- The end of the `try` block, or the `catch` block.
unfoldable pub settle : Config → ℕ → ClaimedRecipient → Attempt → BatchState → BatchState
settle cfg now c delivered b = record b {
  sent = suc b.sent;
  store = mark_sent now (id_of c) b.store;
}
settle cfg now c (thrown e) b =
    if is_transport_failure e
    then record b { auth_failure = some e.message; store = release_claims (id_of c ∷ []) b.store }
    else if should_retry c.row.attempts (is_permanent_smtp_error e) cfg.max_attempts
    then record b {
      retried = suc b.retried;
      store = schedule_retry now (id_of c) (retry_delay_seconds c.row.attempts) e.message b.store;
    }
    else record b { failed = suc b.failed; store = mark_failed (id_of c) e.message b.store }

-- The element at a place, and the others.
abbrev pub pull : {A : Type 0} → ℕ → List A → Option (A × List A)
pull k [] = none
pull zero (x ∷ xs) = some (x, xs)
pull (suc k) (x ∷ xs) = elim (pull k xs) [ none ↦ none | some (y, ys) ↦ some (y, x ∷ ys) ]

unfoldable pub finish_turn : Config → ℕ → ℕ → Attempt → BatchState → BatchState
unfolding settle
finish_turn cfg k now a b = elim (pull k b.flying) [
  | none ↦ b
  | some (c, rest) ↦ settle cfg now c a (record b { flying = rest })
]

unfoldable pub turn : Config → ℕ → Turn → BatchState → BatchState
turn cfg loops takes b = take_turn loops b
turn cfg loops (finishes k now a) b = finish_turn cfg k now a b

unfoldable pub turns : Config → ℕ → List Turn → BatchState → BatchState
turns cfg loops [] b = b
turns cfg loops (t ∷ ts) b = turns cfg loops ts (turn cfg loops t b)

-- `Math.max(1, Math.min(CONCURRENCY, queue.length))`.
unfoldable pub loop_count : ℕ → List ClaimedRecipient → ℕ
loop_count concurrency cs = max 1 (min concurrency (length cs))

unfoldable pub start_batch : List ClaimedRecipient → Store → BatchState
start_batch cs s = record {
  waiting = cs;
  flying = [];
  auth_failure = none;
  sent = 0;
  failed = 0;
  retried = 0;
  store = s;
}

unfoldable pub send_batch : Config → ℕ → List Turn → List ClaimedRecipient → Store → BatchState
unfolding turns start_batch loop_count
send_batch cfg concurrency ts cs s = turns cfg (loop_count concurrency cs) ts (start_batch cs s)

-- `Promise.all` waits for this.
unfoldable pub is_over : BatchState → Bool
is_over b = length b.waiting + length b.flying == 0

abbrev pub attempted : BatchState → ℕ
attempted b = b.sent + b.failed + b.retried

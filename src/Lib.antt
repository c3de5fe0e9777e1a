-- ===== src/Lib.antt =====
-- A bulk mailer: contacts in lists, campaigns that are written and then sent at once or at a
-- scheduled time, a queue of recipient rows in PostgreSQL, a worker that sends from the queue under
-- an hourly limit, and a global suppression list. The library models the sending core as functions
-- of one store, and proves what keeps a message from being sent twice, to the wrong people, or at
-- the wrong time.
--
-- The parts. A campaign is handed to the queue (`queueCampaign`), which sets its status and writes
-- one recipient row an address (`generateRecipients`) in one transaction. Workers claim due rows
-- (`claimRecipients`), send, and write the outcome (`markSent`, `markFailed`, `scheduleRetry`);
-- rows of a dead worker come back by `reclaimExpiredLeases`. Unsubscribing, cancelling, pausing and
-- open tracking write the same tables at any time.
--
-- Files:
--   Store          the tables of src/lib/db/schema.ts, as records; Store/Status has the enums,
--                  Store/Lookup finding and updating a campaign by its id.
--   Queue          src/lib/queue.ts, one function a statement: claim_recipients is claimRecipients,
--                  and so on by name. Queue/Claim: what a claim takes (Taken), in which order
--                  (Order), and two workers (Workers). Queue/Finalize: the end of a campaign.
--   Delivery       the histories of a recipient row: each `Event` is one of the statements that
--                  update the table. Delivery/Rows has the state machine and the invariant,
--                  Delivery/Steps one lemma a statement, Delivery/Laws the histories.
--   Worker         the loop of src/lib/worker.ts. Worker/Batch is sendBatch, several loops that
--                  take messages in any order; Worker is runTick and its rounds. Worker/Settle,
--                  Quota, Welcome and Tick have their laws. Worker/Loop has the waits of
--                  src/lib/worker-loop.ts.
--   Suppression    suppressEmail of src/lib/worker.ts, src/app/api/unsubscribe/[token]/route.ts and
--                  src/app/api/suppressions/route.ts. Suppression/Requests has the requests, and
--                  Refinement the set of addresses that they change.
--   Campaign       src/app/api/campaigns/[id]/{pause,resume,cancel}/route.ts, and the cancelling and
--                  moving of a schedule in src/lib/campaign-activation.ts.
--   Send           src/lib/campaign-send.ts: how a draft is sent or scheduled. Send/Requests is
--                  src/app/api/campaigns/[id]/schedule/route.ts, with the time that is asked for.
--   Schedule       src/lib/scheduling.ts. Calendar has what Date.UTC computes, Digits the texts of
--                  dates and times, Iso the server's check of an instant, Zone the search for the
--                  instants at which a clock reads a time, Form the fields of the browser's form.
--   Scheduler      runSchedulerCycle of src/lib/scheduler.ts and the loop of
--                  src/lib/testing/test-scheduler.ts, as a step function of events.
--   Clock          src/lib/clock.ts, with clockAction of src/lib/testing/actions.ts and
--                  src/lib/testing/access.ts.
--   Edit           src/app/api/campaigns/[id]/route.ts: editing and deleting a campaign.
--   Activation     src/lib/campaign-activation.ts: queueCampaign and its races with Campaign; the
--                  failures (Failure), activateDueCampaigns (Cycle) and recoverStuckCampaigns
--                  (Recovery).
--   Audience       src/lib/campaign-recipients.ts: candidates, duplicates, the writing of a queue;
--                  Audience/Estimate is estimateRecipients, one query for the list page.
--   Import         src/lib/import.ts: prepareRows and importContacts. Prepare, Keeps, Names, Consent
--                  and Complete have their laws.
--   Csv            parseCsv of src/lib/csv.ts. Csv/Printed is the text that it is to read back.
--   Personalize    src/lib/personalize.ts: lookup, renderTemplateHtml and renderTemplate.
--                  Personalize/Markup has the laws of the escaping.
--   Login          src/lib/login-throttle.ts. Bounds has the events of the sign-in page, Refusal one
--                  entry of the map, Guesses a run of events.
--   Tracking       src/app/api/track/open/[token]/route.ts.
--   Rate           src/lib/rate-limit.ts.
--   Address        normalizeEmail and isValidEmail (Address/Valid) of src/lib/email-address.ts.
--   Api, Input     the refusals and the input helpers of src/lib/api.ts.
--   Base           shared tests, list lemmas, sorting, rows with a primary key.
--   Samples        a small store for the tests.
--
-- How the code corresponds. A SQL statement is a function of the `Store`; `now()` and `new Date()`
-- are the argument `now`. A table is the list of its rows in insertion order, and a statement that
-- updates rows maps over the list. Ids are numbers from one sequence; text is a list of UTF-16 code
-- units; instants are milliseconds. `FOR UPDATE SKIP LOCKED` is an argument `locked` that says
-- which rows other transactions hold. A transaction is one function that gives back the old store
-- when it is rolled back. Between the statements of the activation, other processes write, locks
-- are held, errors are thrown and the deadline passes: each statement has a `Moment` with these,
-- and a run has one for each. Elsewhere `meanwhile` is what others write between a read and a
-- write. What the runtime supplies (the lower-case table, random tokens) is the record `Runtime`;
-- environment variables are `Config`. Quantities that the source takes from whole seconds and
-- counts are natural numbers; a subtraction under `GREATEST(..., 0)` or `Math.max(0, ...)` is the
-- one that stops at 0.
--
-- Instants of the calendar are counted from two days before the year 0, so that the day before any
-- date of four digits is a number, and offsets from UTC from 24 hours behind it.
--
-- Fuel. `activate_due_campaigns` runs until nothing is due: its fuel is one round a campaign and
-- one more, since a round that activates nothing ends it. `import_chunks` has the number of rows,
-- since a chunk takes one at least. The other functions are structural.
--
-- Not modelled: SMTP itself, message building, HTML, sessions and encryption, the user interface,
-- the event log, the sniffing of CSV delimiters and headers. What Intl says that a clock in a zone
-- reads, and what `new Date` makes of a text, are parameters (`wall`, `parse_date`).
-- PostgreSQL is taken to run each statement atomically and to keep primary keys distinct; the
-- latter is the hypothesis `Distinct`.
pub mod Activation
pub mod Address
pub mod Api
pub mod Input
pub mod Edit
pub mod Audience
pub mod Base
pub mod Campaign
pub mod Csv
pub mod Delivery
pub mod Import
pub mod Login
pub mod Personalize
pub mod Queue
pub mod Rate
pub mod Samples
pub mod Schedule
pub mod Scheduler
pub mod Clock
pub mod Send
pub mod Store
pub mod Suppression
pub mod Tracking
pub mod Worker

-- ===== src/Delivery.antt =====
-- What can happen to a recipient row after its queue is written: every statement of src/lib/queue.ts
-- that updates the table, and those of the unsubscribe, cancel and open-tracking routes, as the
-- steps of one history. Any of them may come at any time, from any worker.
pub mod Rows
pub mod Steps
pub mod Laws
use ai_email_broadcast_hw.Base.{ℕ, Bool, List, [], ◌∷◌, Text, String}
use ai_email_broadcast_hw.Store.{Store, Recipient}
use ai_email_broadcast_hw.Queue.{
  Config, claim_recipients, reclaim_expired_leases, release_claims, mark_sent, mark_failed,
  mark_suppressed, schedule_retry,
}
use ai_email_broadcast_hw.Suppression.{SuppressInput, suppress_email}
use ai_email_broadcast_hw.Campaign.{cancel_recipients}
use ai_email_broadcast_hw.Tracking.{record_open}

pub data Event : Type 0 where
  claims : String → ℕ → (ℕ → Bool) → Event
  reclaims : Event
  releases : List ℕ → Event
  sends : ℕ → Event
  fails : ℕ → String → Event
  suppresses : ℕ → String → Event
  retries : ℕ → ℕ → String → Event
  unsubscribes : SuppressInput → Event
  cancels : ℕ → Event
  opens : Text → Event

unfoldable pub step : Config → ℕ → Event → Store → Store
step cfg now (claims worker limit locked) s = (claim_recipients cfg worker limit now locked s).1
step cfg now reclaims s = (reclaim_expired_leases cfg now s).1
step cfg now (releases ids) s = release_claims ids s
step cfg now (sends i) s = mark_sent now i s
step cfg now (fails i error) s = mark_failed i error s
step cfg now (suppresses i reason) s = mark_suppressed i reason s
step cfg now (retries i delay error) s = schedule_retry now i delay error s
step cfg now (unsubscribes input) s = suppress_email now input s
step cfg now (cancels i) s = (cancel_recipients i s).1
step cfg now (opens token) s = record_open now token s

-- A history of timed events.
unfoldable pub run : Config → List (ℕ × Event) → Store → Store
run cfg [] s = s
run cfg ((now, e) ∷ es) s = run cfg es (step cfg now e s)

-- ===== src/Delivery/Rows.antt =====
-- How one row may change: the statuses it may pass between, what stays, and when it is well formed.
use ai_email_broadcast_hw.Base.{ℕ, ◌<◌, ◌≡◌, refl, true, Option, none, String, is_some}
use ai_email_broadcast_hw.Store.{Recipient}
use ai_email_broadcast_hw.Store.Status.{DeliveryStatus}

-- QUEUED, SENDING, and the four statuses that are final.
pub data Moves : DeliveryStatus → DeliveryStatus → Type 0 where
  stay : {d : DeliveryStatus} → Moves d d
  claimed : Moves DeliveryStatus.queued DeliveryStatus.sending
  withdrawn : Moves DeliveryStatus.queued DeliveryStatus.suppressed
  called_off : Moves DeliveryStatus.queued DeliveryStatus.cancelled
  put_back : Moves DeliveryStatus.sending DeliveryStatus.queued
  delivered : Moves DeliveryStatus.sending DeliveryStatus.sent
  given_up : Moves DeliveryStatus.sending DeliveryStatus.failed
  held_back : Moves DeliveryStatus.sending DeliveryStatus.suppressed

-- The columns that no event touches.
pub record SameAddressee (r q : Recipient) : Type 0 where
  pub same_id : q.id ≡ r.id
  pub same_campaign : q.campaign_id ≡ r.campaign_id
  pub same_email : q.email ≡ r.email
  pub same_key : q.email_normalized ≡ r.email_normalized
  pub same_token : q.unsubscribe_token ≡ r.unsubscribe_token

-- The lease and its holder stand in a row exactly while it is SENDING.
abbrev pub LeaseFits : DeliveryStatus → Option ℕ → Option String → Type 0
LeaseFits DeliveryStatus.queued lease holder = (lease ≡ none) × (holder ≡ none)
LeaseFits DeliveryStatus.sending lease holder = (is_some lease ≡ true) × (is_some holder ≡ true)
LeaseFits DeliveryStatus.sent lease holder = (lease ≡ none) × (holder ≡ none)
LeaseFits DeliveryStatus.failed lease holder = (lease ≡ none) × (holder ≡ none)
LeaseFits DeliveryStatus.suppressed lease holder = (lease ≡ none) × (holder ≡ none)
LeaseFits DeliveryStatus.cancelled lease holder = (lease ≡ none) × (holder ≡ none)

-- An attempt is on record in a row that is in flight, was sent, or has failed.
abbrev pub AttemptsFit : DeliveryStatus → ℕ → Type 0
AttemptsFit DeliveryStatus.queued n = Unit
AttemptsFit DeliveryStatus.sending n = 0 < n
AttemptsFit DeliveryStatus.sent n = 0 < n
AttemptsFit DeliveryStatus.failed n = 0 < n
AttemptsFit DeliveryStatus.suppressed n = Unit
AttemptsFit DeliveryStatus.cancelled n = Unit

pub record IsWellFormed (r : Recipient) : Type 0 where
  pub lease_fits : LeaseFits r.delivery_status r.lease_expires_at r.claimed_by
  pub attempts_fit : AttemptsFit r.delivery_status r.attempts

-- A change of one row.
pub record Evolves (r q : Recipient) : Type 0 where
  pub moves : Moves r.delivery_status q.delivery_status
  pub same : SameAddressee r q
  pub keeps : IsWellFormed r → IsWellFormed q

pub Evolves-refl : (r : Recipient) → Evolves r r
Evolves-refl r = record {
  moves = stay;
  same = record {
    same_id = refl;
    same_campaign = refl;
    same_email = refl;
    same_key = refl;
    same_token = refl;
  };
  keeps = λ w. w;
}

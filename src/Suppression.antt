-- ===== src/Suppression.antt =====
-- The global suppression list: `suppressEmail` of src/lib/worker.ts, and the routes that call it
-- (src/app/api/unsubscribe and src/app/api/suppressions).
pub mod Laws
pub mod Requests
use ai_email_broadcast_hw.Base.{
  ℕ, suc, ◌<◌, Bool, true, false, not, ◌&&◌, ◌||◌, Option, none, some, List, [], ◌∷◌, ◌++◌, Text,
  String, ltb, if◌then◌else◌, select, update_where, length, text_eq,
}
use ai_email_broadcast_hw.Address.{normalize_email}
use ai_email_broadcast_hw.Store.{Store, Recipient, Suppression}
use ai_email_broadcast_hw.Store.Status.{DeliveryStatus, SuppressionReason, delivery_is}
use ai_email_broadcast_hw.Queue.{is_suppressed}

pub record SuppressInput : Type 0 where
  pub email : Text
  pub email_normalized : Text
  pub reason : SuppressionReason
  pub campaign_id : Option ℕ
  pub note : Option Text

-- INSERT ... ON CONFLICT (email_normalized) DO NOTHING.
unfoldable pub insert_suppression : ℕ → SuppressInput → Store → Store
unfolding is_suppressed
insert_suppression now input s =
    if is_suppressed s.suppressions input.email_normalized then s else record s {
      suppressions =
          s.suppressions
          ++ record {
            id = s.next_id;
            email = input.email;
            email_normalized = input.email_normalized;
            reason = input.reason;
            note = input.note;
            campaign_id = input.campaign_id;
            created_at = now;
          }
            ∷ [];
      next_id = suc s.next_id;
    }

unfoldable pub is_waiting_for : Text → Recipient → Bool
is_waiting_for email r =
    text_eq r.email_normalized email && delivery_is r.delivery_status DeliveryStatus.queued

unfoldable pub withdraw_row : Recipient → Recipient
withdraw_row r = record r {
  delivery_status = DeliveryStatus.suppressed;
  last_error = some "Unsubscribed before delivery";
  lease_expires_at = none;
  claimed_by = none;
}

unfoldable pub suppress_email : ℕ → SuppressInput → Store → Store
unfolding insert_suppression is_waiting_for withdraw_row
suppress_email now input s =
    let listed = insert_suppression now input s in
    record listed {
      recipients =
          update_where (is_waiting_for input.email_normalized) withdraw_row listed.recipients;
    }

unfoldable pub find_by_token : Text → List Recipient → Option Recipient
find_by_token token [] = none
find_by_token token (r ∷ rs) =
    if text_eq r.unsubscribe_token token then some r else find_by_token token rs

-- The public unsubscribe endpoint: whether the token was one, and the store after it.
unfoldable pub unsubscribe : ℕ → Text → Store → Bool × Store
unfolding find_by_token
unsubscribe now token s =
    if ltb (length token) 16 || ltb 128 (length token)
    then (false, s)
    else elim (find_by_token token s.recipients) [
      | none ↦ (false, s)
      | some r ↦ (
        true,
        suppress_email now
            (record {
              email = r.email;
              email_normalized = r.email_normalized;
              reason = SuppressionReason.unsubscribed;
              campaign_id = some r.campaign_id;
              note = none;
            })
            s,
      )
    ]

-- DELETE of the suppressions route: an administrator lifts a suppression.
unfoldable pub lift_suppression : (Text → Text) → Text → Store → Store
lift_suppression lower email s =
    let key = normalize_email lower email in
    record s { suppressions = select (λ p. not (text_eq p.email_normalized key)) s.suppressions }

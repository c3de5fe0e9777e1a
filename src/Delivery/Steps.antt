-- ===== src/Delivery/Steps.antt =====
-- Each kind of event changes a row as `Evolves` allows.
use ai_email_broadcast_hw.Base.{ℕ, ◌<◌, ◌≡◌, refl, subst, String, arith}
use ai_email_broadcast_hw.Store.{Recipient}
use ai_email_broadcast_hw.Store.Status.{DeliveryStatus}
use ai_email_broadcast_hw.Queue.{
  Config, claim_row, requeue_row, give_up_row, release_row, sent_row, failed_row, suppressed_row,
  retry_row,
}
use ai_email_broadcast_hw.Suppression.{withdraw_row}
use ai_email_broadcast_hw.Campaign.{cancel_row}
use ai_email_broadcast_hw.Tracking.{open_row}
use ai_email_broadcast_hw.Delivery.Rows.{
  Moves, stay, claimed, withdrawn, called_off, put_back, delivered, given_up, held_back,
  SameAddressee, AttemptsFit, IsWellFormed, Evolves,
}

sending_fit :
    (r : Recipient) → IsWellFormed r → r.delivery_status ≡ DeliveryStatus.sending → 0 < r.attempts
sending_fit r w e = subst (λ d. AttemptsFit d r.attempts) e w.attempts_fit

module _ (r q : Recipient) where
  addressee :
      q.id ≡ r.id
      → q.campaign_id ≡ r.campaign_id
      → q.email ≡ r.email
      → q.email_normalized ≡ r.email_normalized
      → q.unsubscribe_token ≡ r.unsubscribe_token
      → SameAddressee r q
  addressee i c e k t = record {
    same_id = i;
    same_campaign = c;
    same_email = e;
    same_key = k;
    same_token = t;
  }

  from :
      (d d' : DeliveryStatus)
      → r.delivery_status ≡ d
      → q.delivery_status ≡ d'
      → Moves d d'
      → Moves r.delivery_status q.delivery_status
  from d d' e e' m = rw (e, e') m

module _ (r : Recipient) where
  pub claim_row-Evolves :
      (cfg : Config) (worker : String) (now : ℕ)
      → r.delivery_status ≡ DeliveryStatus.queued
      → Evolves r (claim_row cfg worker now r)
  unfolding claim_row
  claim_row-Evolves cfg worker now e = record {
    moves = from r (claim_row cfg worker now r) _ _ e refl claimed;
    same = addressee _ _ refl refl refl refl refl;
    keeps = λ w. record { lease_fits = (refl, refl); attempts_fit = omega arith };
  }

  pub requeue_row-Evolves : r.delivery_status ≡ DeliveryStatus.sending → Evolves r (requeue_row r)
  unfolding requeue_row
  requeue_row-Evolves e = record {
    moves = from r (requeue_row r) _ _ e refl put_back;
    same = addressee _ _ refl refl refl refl refl;
    keeps = λ w. record { lease_fits = (refl, refl); attempts_fit = tt };
  }

  pub give_up_row-Evolves : r.delivery_status ≡ DeliveryStatus.sending → Evolves r (give_up_row r)
  unfolding give_up_row
  give_up_row-Evolves e = record {
    moves = from r (give_up_row r) _ _ e refl given_up;
    same = addressee _ _ refl refl refl refl refl;
    keeps = λ w. record { lease_fits = (refl, refl); attempts_fit = sending_fit r w e };
  }

  pub release_row-Evolves : r.delivery_status ≡ DeliveryStatus.sending → Evolves r (release_row r)
  unfolding release_row
  release_row-Evolves e = record {
    moves = from r (release_row r) _ _ e refl put_back;
    same = addressee _ _ refl refl refl refl refl;
    keeps = λ w. record { lease_fits = (refl, refl); attempts_fit = tt };
  }

  pub sent_row-Evolves :
      (now : ℕ) → r.delivery_status ≡ DeliveryStatus.sending → Evolves r (sent_row now r)
  unfolding sent_row
  sent_row-Evolves now e = record {
    moves = from r (sent_row now r) _ _ e refl delivered;
    same = addressee _ _ refl refl refl refl refl;
    keeps = λ w. record { lease_fits = (refl, refl); attempts_fit = sending_fit r w e };
  }

  pub failed_row-Evolves :
      (error : String) → r.delivery_status ≡ DeliveryStatus.sending → Evolves r (failed_row error r)
  unfolding failed_row
  failed_row-Evolves error e = record {
    moves = from r (failed_row error r) _ _ e refl given_up;
    same = addressee _ _ refl refl refl refl refl;
    keeps = λ w. record { lease_fits = (refl, refl); attempts_fit = sending_fit r w e };
  }

  pub suppressed_row-Evolves :
      (reason : String)
      → r.delivery_status ≡ DeliveryStatus.sending
      → Evolves r (suppressed_row reason r)
  unfolding suppressed_row
  suppressed_row-Evolves reason e = record {
    moves = from r (suppressed_row reason r) _ _ e refl held_back;
    same = addressee _ _ refl refl refl refl refl;
    keeps = λ w. record { lease_fits = (refl, refl); attempts_fit = tt };
  }

  pub retry_row-Evolves :
      (now delay : ℕ) (error : String)
      → r.delivery_status ≡ DeliveryStatus.sending
      → Evolves r (retry_row now delay error r)
  unfolding retry_row
  retry_row-Evolves now delay error e = record {
    moves = from r (retry_row now delay error r) _ _ e refl put_back;
    same = addressee _ _ refl refl refl refl refl;
    keeps = λ w. record { lease_fits = (refl, refl); attempts_fit = tt };
  }

  pub withdraw_row-Evolves : r.delivery_status ≡ DeliveryStatus.queued → Evolves r (withdraw_row r)
  unfolding withdraw_row
  withdraw_row-Evolves e = record {
    moves = from r (withdraw_row r) _ _ e refl withdrawn;
    same = addressee _ _ refl refl refl refl refl;
    keeps = λ w. record { lease_fits = (refl, refl); attempts_fit = tt };
  }

  pub cancel_row-Evolves : r.delivery_status ≡ DeliveryStatus.queued → Evolves r (cancel_row r)
  unfolding cancel_row
  cancel_row-Evolves e = record {
    moves = from r (cancel_row r) _ _ e refl called_off;
    same = addressee _ _ refl refl refl refl refl;
    keeps = λ w. record { lease_fits = (refl, refl); attempts_fit = tt };
  }

  pub open_row-Evolves : (now : ℕ) → Evolves r (open_row now r)
  unfolding open_row
  open_row-Evolves now = record {
    moves = stay;
    same = addressee _ _ refl refl refl refl refl;
    keeps = λ w. record { lease_fits = w.lease_fits; attempts_fit = w.attempts_fit };
  }

-- ===== src/Delivery/Laws.antt =====
-- Every event, and so every history, changes the recipient rows as `Evolves` allows.
mod Tests
pub mod Final
use ai_email_broadcast_hw.Base.{
  ℕ, ◌≤◌, ◌<◌, ◌≡◌, refl, sym, ◌∙◌, subst, ◌⊎◌, inl, inr, Bool, true, false, ◌&&◌, Option, none,
  some, List, [], ◌∷◌, map, String, arith, ltb, leb, ◌==◌, if◌then◌else◌, length, All, Bool-cases,
  Pointwise, Pointwise-update_where, Pointwise-update_twice, Pointwise-mono, All-of-Pointwise,
  update_where, mem_id,
}
use ai_email_broadcast_hw.Base.Keys.{Distinct}
use ai_email_broadcast_hw.Store.{Store, Recipient}
use ai_email_broadcast_hw.Store.Status.{DeliveryStatus, delivery_is, delivery_is→eq}
use ai_email_broadcast_hw.Queue.{
  Config, is_claimable, claim_row, is_retriable, is_spent, requeue_row, give_up_row, is_in_flight,
  release_row, sent_row, failed_row, suppressed_row, retry_row, claim_recipients,
  reclaim_expired_leases, release_claims, mark_sent, mark_failed, mark_suppressed, schedule_retry,
}
use ai_email_broadcast_hw.Queue.Claim.{ids, ClaimsRow, claim-Pointwise}
use ai_email_broadcast_hw.Suppression.{
  SuppressInput, suppress_email, insert_suppression, is_waiting_for, withdraw_row,
}
use ai_email_broadcast_hw.Campaign.{cancel_row, waits_in, cancel_recipients}
use ai_email_broadcast_hw.Tracking.{open_row, record_open}
use ai_email_broadcast_hw.Delivery.{
  Event, claims, reclaims, releases, sends, fails, suppresses, retries, unsubscribes, cancels,
  opens, step, run,
}
use ai_email_broadcast_hw.Delivery.Rows.{IsWellFormed, Evolves, Evolves-refl}
use ai_email_broadcast_hw.Delivery.Steps.{
  claim_row-Evolves, requeue_row-Evolves, give_up_row-Evolves, release_row-Evolves,
  sent_row-Evolves, failed_row-Evolves, suppressed_row-Evolves, retry_row-Evolves,
  withdraw_row-Evolves, cancel_row-Evolves, open_row-Evolves,
}

module _ (r : Recipient) where
  sending_of_in_flight :
      (i : ℕ) → is_in_flight i r ≡ true → r.delivery_status ≡ DeliveryStatus.sending
  unfolding is_in_flight
  sending_of_in_flight i h = ground arith

  queued_of_claimable :
      (now : ℕ) (locked : ℕ → Bool) (s : Store)
      → is_claimable now locked s.campaigns r ≡ true
      → r.delivery_status ≡ DeliveryStatus.queued
  unfolding is_claimable
  queued_of_claimable now locked s h = delivery_is→eq r.delivery_status _ (ground arith)

  sending_of_held :
      (is : List ℕ)
      → (mem_id r.id is && delivery_is r.delivery_status DeliveryStatus.sending) ≡ true
      → r.delivery_status ≡ DeliveryStatus.sending
  sending_of_held is h = delivery_is→eq r.delivery_status _ (ground arith)

  queued_of_waiting_for :
      (email : List ℕ) → is_waiting_for email r ≡ true → r.delivery_status ≡ DeliveryStatus.queued
  unfolding is_waiting_for
  queued_of_waiting_for email h = delivery_is→eq r.delivery_status _ (ground arith)

  queued_of_waits_in : (i : ℕ) → waits_in i r ≡ true → r.delivery_status ≡ DeliveryStatus.queued
  unfolding waits_in
  queued_of_waits_in i h = delivery_is→eq r.delivery_status _ (ground arith)

module _ (cfg : Config) (r : Recipient) (now : ℕ) where
  sending_of_retriable : is_retriable cfg now r ≡ true → r.delivery_status ≡ DeliveryStatus.sending
  unfolding is_retriable
  sending_of_retriable h = delivery_is→eq r.delivery_status _ (ground arith)

  sending_of_spent : is_spent cfg now r ≡ true → r.delivery_status ≡ DeliveryStatus.sending
  unfolding is_spent
  sending_of_spent h = delivery_is→eq r.delivery_status _ (ground arith)

not_spent : (cfg : Config) (now : ℕ) (r : Recipient) → is_spent cfg now (requeue_row r) ≡ false
unfolding is_spent requeue_row
not_spent cfg now r = refl

module _ (cfg : Config) where
  rows-All :
      (p : Recipient → Bool) (f : Recipient → Recipient) (rs : List Recipient)
      → ((r : Recipient) → p r ≡ true → Evolves r (f r))
      → All (λ r. p r ≡ true → Evolves r (f r)) rs
  rows-All p f [] h = tt
  rows-All p f (r ∷ rs) h = (h r, rows-All p f rs h)

  update-Evolves :
      (p : Recipient → Bool) (f : Recipient → Recipient) (rs : List Recipient)
      → ((r : Recipient) → p r ≡ true → Evolves r (f r))
      → Pointwise Evolves rs (update_where p f rs)
  update-Evolves p f rs h =
      Pointwise-update_where Evolves p f rs (λ r e. Evolves-refl r) (rows-All p f rs h)

  unchanged : (rs : List Recipient) → Pointwise Evolves rs rs
  unchanged [] = tt
  unchanged (r ∷ rs) = (Evolves-refl r, unchanged rs)

  claim-Evolves :
      (worker : String) (limit now : ℕ) (locked : ℕ → Bool) (s : Store)
      → Distinct (ids s.recipients)
      → Pointwise Evolves s.recipients (claim_recipients cfg worker limit now locked s).1.recipients
  claim-Evolves worker limit now locked s keys =
      Pointwise-mono (ClaimsRow cfg worker now locked s) Evolves s.recipients _ one
        (claim-Pointwise cfg worker limit now locked s keys)
    where
      one : (r q : Recipient) → ClaimsRow cfg worker now locked s r q → Evolves r q
      one r q (inl e) = rw e (Evolves-refl r)
      one r q (inr (c, e)) =
          rw e (claim_row-Evolves r cfg worker now (queued_of_claimable r now locked s c))

  -- The two statements, seen at one row: at most one of them applies.
  reclaim_one :
      (now : ℕ) (r : Recipient)
      → let q = if is_retriable cfg now r then requeue_row r else r in
        Evolves r (if is_spent cfg now q then give_up_row q else q)
  reclaim_one now r = elim (Bool-cases (is_retriable cfg now r)) [
    | inl e ↦ rw (e, not_spent cfg now r) (requeue_row-Evolves r (sending_of_retriable cfg r now e))
    | inr e ↦ rw e (elim (Bool-cases (is_spent cfg now r)) [
      | inl k ↦ rw k (give_up_row-Evolves r (sending_of_spent cfg r now k))
      | inr k ↦ rw k (Evolves-refl r)
    ])
  ]

  reclaim-Evolves :
      (now : ℕ) (s : Store)
      → Pointwise Evolves s.recipients (reclaim_expired_leases cfg now s).1.recipients
  unfolding reclaim_expired_leases
  reclaim-Evolves now s =
      Pointwise-update_twice Evolves (is_retriable cfg now) (is_spent cfg now) requeue_row
        give_up_row s.recipients (reclaim_one now)

  suppress_email-Evolves :
      (now : ℕ) (input : SuppressInput) (s : Store)
      → Pointwise Evolves s.recipients (suppress_email now input s).recipients
  unfolding suppress_email
  suppress_email-Evolves now input s = rw (same_rows) (
      update-Evolves _ _ s.recipients (λ r h. withdraw_row-Evolves r (queued_of_waiting_for r _ h)))
    where
      same_rows : (insert_suppression now input s).recipients ≡ s.recipients
      same_rows = ground arith

  record_open-Evolves :
      (now : ℕ) (token : List ℕ) (s : Store)
      → Pointwise Evolves s.recipients (record_open now token s).recipients
  unfolding record_open
  record_open-Evolves now token s =
      elim (Bool-cases (leb 16 (length token) && leb (length token) 128)) [
        | inl e ↦ rw e (update-Evolves _ _ s.recipients (λ r h. open_row-Evolves r now))
        | inr e ↦ rw e (unchanged s.recipients)
      ]

  -- One event changes each row by a legal move, keeps its addressee, and keeps it well formed.
  pub step-Evolves :
      (now : ℕ) (e : Event) (s : Store)
      → Distinct (ids s.recipients)
      → Pointwise Evolves s.recipients (step cfg now e s).recipients
  unfolding step release_claims mark_sent mark_failed mark_suppressed schedule_retry
      cancel_recipients
  step-Evolves now (claims worker limit locked) s keys =
      claim-Evolves worker limit now locked s keys
  step-Evolves now reclaims s keys = reclaim-Evolves now s
  step-Evolves now (releases is) s keys =
      update-Evolves _ _ s.recipients λ r h. release_row-Evolves r (sending_of_held r is h)
  step-Evolves now (sends i) s keys =
      update-Evolves _ _ s.recipients λ r h. sent_row-Evolves r now (sending_of_in_flight r i h)
  step-Evolves now (fails i error) s keys =
      update-Evolves _ _ s.recipients λ r h. failed_row-Evolves r error (sending_of_in_flight r i h)
  step-Evolves now (suppresses i reason) s keys =
      update-Evolves _ _ s.recipients
        λ r h. suppressed_row-Evolves r reason (sending_of_in_flight r i h)
  step-Evolves now (retries i delay error) s keys =
      update-Evolves _ _ s.recipients
        λ r h. retry_row-Evolves r now delay error (sending_of_in_flight r i h)
  step-Evolves now (unsubscribes input) s keys = suppress_email-Evolves now input s
  step-Evolves now (cancels i) s keys =
      update-Evolves _ _ s.recipients λ r h. cancel_row-Evolves r (queued_of_waits_in r i h)
  step-Evolves now (opens token) s keys = record_open-Evolves now token s

  pub step-ids :
      (now : ℕ) (e : Event) (s : Store)
      → Distinct (ids s.recipients)
      → ids (step cfg now e s).recipients ≡ ids s.recipients
  step-ids now e s keys = same_ids s.recipients _ (step-Evolves now e s keys)
    where
      same_ids : (rs qs : List Recipient) → Pointwise Evolves rs qs → ids qs ≡ ids rs
      same_ids [] [] h = refl
      same_ids [] (q ∷ qs) h = elim h [ ]
      same_ids (r ∷ rs) [] h = elim h [ ]
      same_ids (r ∷ rs) (q ∷ qs) (h, hs) = ground (arith, h.same.same_id, same_ids rs qs hs)

  pub run-ids :
      (es : List (ℕ × Event)) (s : Store)
      → Distinct (ids s.recipients)
      → ids (run cfg es s).recipients ≡ ids s.recipients
  unfolding run
  run-ids [] s keys = refl
  run-ids ((now, e) ∷ es) s keys =
      run-ids es (step cfg now e s) (rw (step-ids now e s keys) keys) ∙ step-ids now e s keys

  -- Whatever happens, and in whatever order, each row keeps a lease and its holder exactly while it is
  -- SENDING, and a row that is SENDING, SENT or FAILED has an attempt on record. (Rows have different
  -- ids and are so at the start.)
  pub run-IsWellFormed :
      (es : List (ℕ × Event)) (s : Store)
      → Distinct (ids s.recipients)
      → All IsWellFormed s.recipients
      → All IsWellFormed (run cfg es s).recipients
  unfolding run
  run-IsWellFormed [] s keys w = w
  run-IsWellFormed ((now, e) ∷ es) s keys w =
      run-IsWellFormed es (step cfg now e s) (rw (step-ids now e s keys) keys) (
        All-of-Pointwise IsWellFormed s.recipients _
          (Pointwise-mono _ _ s.recipients _ (λ r q h. h.keeps) (step-Evolves now e s keys)) w)

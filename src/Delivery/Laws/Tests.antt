-- ===== src/Delivery/Laws/Tests.antt =====
-- A history of two workers, a retry, an unsubscribe and a cancelled campaign.
use ai_email_broadcast_hw.Base.{
  ℕ, refl, List, [], ◌∷◌, Text, All, Pointwise, ◌≡◌, ◌==◌, count_where,
}
use ai_email_broadcast_hw.Base.Keys.{Distinct}
use ai_email_broadcast_hw.Queue.{claim_recipients, schedule_retry, reclaim_expired_leases}
use ai_email_broadcast_hw.Store.{Recipient, find_campaign}
use ai_email_broadcast_hw.Queue.Claim.{ids}
use ai_email_broadcast_hw.Delivery.{
  Event, claims, reclaims, retries, sends, unsubscribes, cancels, step, run,
}
use ai_email_broadcast_hw.Delivery.Rows.{IsWellFormed}
use ai_email_broadcast_hw.Delivery.Laws.{run-IsWellFormed}
use ai_email_broadcast_hw.Delivery.Laws.Final.{Settles, run-Settles}
use ai_email_broadcast_hw.Samples.{config, unlocked, store, request, waiting}

abbrev keys : Distinct (ids store.recipients)
keys = (refl, (refl, (refl, tt)))

abbrev history : List (ℕ × Event)
history =
    (1000, claims "w1" 2 unlocked)
    ∷ (1001, retries 21 60 "451 try again")
    ∷ (1002, sends 22)
    ∷ (1003, unsubscribes request)
    ∷ (1004, cancels 1)
    ∷ []

fresh_row : {i next : ℕ} {email : Text} → IsWellFormed (waiting i email next)
fresh_row = record { lease_fits = (refl, refl); attempts_fit = tt }

waiting-All : All (IsWellFormed) store.recipients
waiting-All = (fresh_row, (fresh_row, (fresh_row, tt)))

run-IsWellFormed_example : All (IsWellFormed) (run config history store).recipients
run-IsWellFormed_example = run-IsWellFormed config history store keys waiting-All

-- The lease of the second of three claims runs out before its message fails, and the worker, whose
-- copy of the row has two attempts, puts the row back while the third claim holds it.
abbrev late_failure : List (ℕ × Event)
late_failure =
    (1000, claims "w1" 9 unlocked)
    ∷ (1000000, reclaims)
    ∷ (1000001, claims "w2" 9 unlocked)
    ∷ (2000000, reclaims)
    ∷ (2000001, claims "w3" 9 unlocked)
    ∷ (2000002, retries 21 60 "451 try again")
    ∷ (3000000, claims "w4" 9 unlocked)
    ∷ []

-- The row is then claimed once more than config.max_attempts, which is 3.
claimed_past_the_most :
    count_where (λ (r : Recipient). r.attempts == 4) (run config late_failure store).recipients ≡ 1
unfolding run step claim_recipients schedule_retry reclaim_expired_leases find_campaign
claimed_past_the_most = refl

run-Settles_example : Pointwise Settles store.recipients (run config history store).recipients
run-Settles_example = run-Settles config history store keys

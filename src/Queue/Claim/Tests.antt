-- ===== src/Queue/Claim/Tests.antt =====
-- Two rows of three are claimed, those that have waited longest.
use ai_email_broadcast_hw.Base.{
  ℕ, ◌+◌, ◌≡◌, ◌⊎◌, refl, Bool, false, List, [], ◌∷◌, All, Pointwise, count_where, length, mem_id,
}
use ai_email_broadcast_hw.Base.Keys.{Distinct}
use ai_email_broadcast_hw.Base.Sort.{Precede}
use ai_email_broadcast_hw.Store.{Recipient, find_campaign}
use ai_email_broadcast_hw.Queue.{before, is_claimable, claim_recipients}
use ai_email_broadcast_hw.Queue.Claim.{ids, claimable, claimed_ids, length-claim}
use ai_email_broadcast_hw.Queue.Claim.Taken.{IsTaken, claim_recipients-IsTaken}
use ai_email_broadcast_hw.Queue.Claim.Order.{claim_oldest_first}
use ai_email_broadcast_hw.Queue.Claim.Workers.{claim_skips_locked, lock_also, claim_after_commit}
use ai_email_broadcast_hw.Samples.{config, unlocked, store}

abbrev keys : Distinct (ids store.recipients)
keys = (refl, (refl, (refl, tt)))

takes_the_oldest : claimed_ids config "w1" 2 1000 unlocked store ≡ 21 ∷ 22 ∷ []
unfolding claim_recipients find_campaign
takes_the_oldest = refl

claim_recipients-IsTaken_example :
    Pointwise
      (λ r q. (q ≡ r) ⊎ IsTaken config "w1" 1000 unlocked store r q)
      store.recipients
      (claim_recipients config "w1" 2 1000 unlocked store).1.recipients
claim_recipients-IsTaken_example = claim_recipients-IsTaken config "w1" 2 1000 unlocked store keys

length-claim_example : length (claim_recipients config "w1" 2 1000 unlocked store).0 ≡ 2
unfolding is_claimable find_campaign
length-claim_example = length-claim config "w1" 2 1000 unlocked store keys

claim_skips_locked_example :
    All
      (λ i.
        mem_id i (
          claimed_ids config "w2" 2 1001
            (lock_also unlocked (claimed_ids config "w1" 2 1000 unlocked store))
            store)
        ≡ false)
      (claimed_ids config "w1" 2 1000 unlocked store)
claim_skips_locked_example = claim_skips_locked config "w1" "w2" 2 2 1000 1001 unlocked store keys

claim_after_commit_example :
    All
      (λ i.
        mem_id i (
          claimed_ids config "w2" 2 1001 unlocked
            (claim_recipients config "w1" 2 1000 unlocked store).1)
        ≡ false)
      (claimed_ids config "w1" 2 1000 unlocked store)
claim_after_commit_example =
    claim_after_commit config "w1" "w2" 2 2 1000 1001 unlocked store keys unlocked

claim_oldest_first_example :
    (kept : List Recipient) × (left : List Recipient) × ((i : ℕ)
      → mem_id i (claimed_ids config "w1" 2 1000 unlocked store) ≡ mem_id i (ids kept))
    × ((p : Recipient → Bool)
        → count_where p kept + count_where p left ≡ count_where p (claimable 1000 unlocked store))
    × Precede before kept left
claim_oldest_first_example = claim_oldest_first config "w1" 2 1000 unlocked store keys

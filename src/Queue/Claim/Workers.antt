-- ===== src/Queue/Claim/Workers.antt =====
-- Two workers that claim: from the same snapshot of the table, with the first worker's row locks
-- still held, and one after the other has committed.
use ai_email_broadcast_hw.Base.{
  ℕ, ◌≡◌, refl, ◌∙◌, sym, inl, inr, Bool, true, false, ◌||◌, List, [], ◌∷◌, String, arith, ◌==◌,
  All, All-mono, Bool-cases, update_where, mem_id,
}
use ai_email_broadcast_hw.Base.Keys.{Distinct, mem_id-select_none, mem_id_self, map-update_where}
use ai_email_broadcast_hw.Store.{Store, Recipient}
use ai_email_broadcast_hw.Queue.{Config, is_claimable, due_rows, claim_row, claim_recipients}
use ai_email_broadcast_hw.Queue.Claim.{
  ids, not_due, recipients-claim, taken, claimed_ids, mem_id-claimed_ids,
}

locked_row :
    (now i : ℕ) (locked : ℕ → Bool) (s : Store) (r : Recipient)
    → locked i ≡ true
    → (r.id == i) ≡ true
    → is_claimable now locked s.campaigns r ≡ false
unfolding is_claimable
locked_row now i locked s r h e = ground arith

claimed_row :
    (cfg : Config) (worker : String) (now at : ℕ) (locked : ℕ → Bool) (s : Store) (r : Recipient)
    → is_claimable now locked s.campaigns (claim_row cfg worker at r) ≡ false
unfolding is_claimable claim_row
claimed_row cfg worker now at locked s r = refl

id-claim_row :
    (cfg : Config) (worker : String) (at : ℕ) (r : Recipient)
    → (claim_row cfg worker at r).id ≡ r.id
unfolding claim_row
id-claim_row cfg worker at r = refl

module _ (now i : ℕ) (locked : ℕ → Bool) (s : Store) where
  locked_rows :
      (rs : List Recipient)
      → locked i ≡ true
      → All (λ r. (r.id == i) ≡ true → is_claimable now locked s.campaigns r ≡ false) rs
  locked_rows [] h = tt
  locked_rows (r ∷ rs) h = (locked_row now i locked s r h, locked_rows rs h)

  -- A row that a claim has written cannot be claimed again until something puts it back.
  written_rows :
      (cfg : Config) (worker : String) (at : ℕ) (is : List ℕ) (rs : List Recipient)
      → mem_id i is ≡ true
      → All
          (λ r. (r.id == i) ≡ true → is_claimable now locked s.campaigns r ≡ false)
          (update_where (λ r. mem_id r.id is) (claim_row cfg worker at) rs)
  written_rows cfg worker at is [] h = tt
  written_rows cfg worker at is (r ∷ rs) h = elim (Bool-cases (mem_id r.id is)) [
    | inl e ↦
        rw e (λ _. claimed_row cfg worker now at locked s r, written_rows cfg worker at is rs h)
    | inr e ↦ rw e (λ k. absurd (ne_self k h e), written_rows cfg worker at is rs h)
  ]
    where
      ne_self : (r.id == i) ≡ true → mem_id i is ≡ true → mem_id r.id is ≡ false → ⊥
      ne_self k h e = let same : r.id ≡ i = ground arith in cc

-- The rows that other transactions hold once these ids are locked as well.
abbrev pub lock_also : (ℕ → Bool) → List ℕ → ℕ → Bool
lock_also locked is i = locked i || mem_id i is

module _ (cfg : Config) (worker other : String) (limit limit' now later : ℕ) (locked : ℕ → Bool)
    (s : Store) (keys : Distinct (ids s.recipients)) where
  -- No row of the first claim is in the second: its statement sees the table as it was before the first one's, and skips the
  -- rows that the first one's transaction has locked.
  pub claim_skips_locked :
      All
        (λ i.
          mem_id i (
            claimed_ids cfg other limit' later
              (lock_also locked (claimed_ids cfg worker limit now locked s))
              s)
          ≡ false)
        (claimed_ids cfg worker limit now locked s)
  claim_skips_locked =
      All-mono _ _ (claimed_ids cfg worker limit now locked s)
        (λ i h. mem_id-claimed_ids cfg other limit' later _ s keys i ∙ absent i h)
        (mem_id_self (claimed_ids cfg worker limit now locked s))
    where
      absent :
          (i : ℕ)
          → mem_id i (claimed_ids cfg worker limit now locked s) ≡ true
          → mem_id i (
              ids (
                due_rows later
                  (lock_also locked (claimed_ids cfg worker limit now locked s))
                  limit'
                  s))
            ≡ false
      absent i h = not_due later limit' i _ s (
          mem_id-select_none (λ r. r.id) i _ s.recipients
            (locked_rows later i _ s s.recipients (ground arith)))

  -- A claim that runs after the first one has committed, at any time and with any locks, returns none
  -- of its rows.
  pub claim_after_commit :
      (locked' : ℕ → Bool)
      → All
          (λ i.
            mem_id i (
              claimed_ids cfg other limit' later locked'
                (claim_recipients cfg worker limit now locked s).1)
            ≡ false)
          (claimed_ids cfg worker limit now locked s)
  claim_after_commit locked' =
      All-mono _ _ (claimed_ids cfg worker limit now locked s)
        (λ i h.
          mem_id-claimed_ids cfg other limit' later locked' after keys' i
          ∙ not_due later limit' i locked' after
              (mem_id-select_none (λ r. r.id) i _ after.recipients (written i h)))
        (mem_id_self (claimed_ids cfg worker limit now locked s))
    where
      after : Store
      after = (claim_recipients cfg worker limit now locked s).1

      keys' : Distinct (ids after.recipients)
      keys' = rw (recipients-claim cfg worker limit now locked s) (
          rw
            (map-update_where (λ (r : Recipient). r.id) (taken now locked limit s)
              (claim_row cfg worker now) s.recipients (id-claim_row cfg worker now))
            keys)

      written :
          (i : ℕ)
          → mem_id i (claimed_ids cfg worker limit now locked s) ≡ true
          → All
              (λ r. (r.id == i) ≡ true → is_claimable later locked' after.campaigns r ≡ false)
              after.recipients
      written i h = rw (recipients-claim cfg worker limit now locked s) (
          written_rows later i locked' after cfg worker now _ s.recipients
            (sym (mem_id-claimed_ids cfg worker limit now locked s keys i) ∙ h))

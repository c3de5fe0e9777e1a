-- ===== src/Audience/Generate.antt =====
-- The laws of the inserts of `generateRecipients`.
mod Tests
use ai_email_broadcast_hw.Base.{
  ℕ, zero, suc, ◌+◌, ◌-◌, ◌≤◌, ◌≡◌, refl, sym, ap, ◌∙◌, ◌⊎◌, inl, inr, Bool, true, false, not, ◌&&◌,
  ◌||◌, Option, none, some, List, [], ◌∷◌, ◌++◌, Text, arith, ◌==◌, if◌then◌else◌, All, All-mono,
  All-append, All-select_self, Bool-cases, any, any-append, select, count_where, length,
  length-append, text_eq, text_eq_comm, text_eq_refl,
}
use mathlib.Core.List.{append_assoc, append-nil}
use ai_email_broadcast_hw.Store.{Store, Recipient}
use ai_email_broadcast_hw.Store.Status.{DeliveryStatus}
use ai_email_broadcast_hw.Queue.{is_suppressed}
use ai_email_broadcast_hw.Audience.{
  Runtime, Unique, has_row, new_row, insert_recipient, insert_recipients, sendable_for,
  generate_recipients, belongs_to, load_candidates,
}

-- UNIQUE (campaign_id, email_normalized) holds of the table.
abbrev pub UniqueRows : List Recipient → Type 0
UniqueRows [] = Unit
UniqueRows (r ∷ rs) = (has_row r.campaign_id r.email_normalized rs ≡ false) × UniqueRows rs

has_row-append :
    (i : ℕ) (email : Text) (rs qs : List Recipient)
    → has_row i email (rs ++ qs) ≡ (has_row i email rs || has_row i email qs)
unfolding has_row
has_row-append i email rs qs = any-append _ rs qs

UniqueRows-append :
    (rs : List Recipient) (r : Recipient)
    → UniqueRows rs
    → has_row r.campaign_id r.email_normalized rs ≡ false
    → UniqueRows (rs ++ r ∷ [])
unfolding has_row
UniqueRows-append [] r u h = (refl, tt)
UniqueRows-append (q ∷ rs) r (u, us) h = (
  ground (
    arith,
    has_row-append q.campaign_id q.email_normalized rs (r ∷ []),
    text_eq_comm r.email_normalized q.email_normalized,
  ),
  UniqueRows-append rs r us (ground arith),
)

module _ (rt : Runtime) (now i : ℕ) where
  -- A row is there for each address, and none is lost.
  abbrev pub IsQueued : Store → Unique → Type 0
  IsQueued s u = has_row i u.email_normalized s.recipients ≡ true

  insert_recipient-UniqueRows :
      (u : Unique) (s : Store)
      → UniqueRows s.recipients
      → UniqueRows (insert_recipient rt now i u s).recipients
  unfolding insert_recipient
  insert_recipient-UniqueRows u s h =
      elim (Bool-cases (has_row i u.email_normalized s.recipients)) [
        | inl e ↦ rw e h
        | inr e ↦ rw e (UniqueRows-append s.recipients _ h e)
      ]

  insert_recipients-UniqueRows :
      (us : List Unique) (s : Store)
      → UniqueRows s.recipients
      → UniqueRows (insert_recipients rt now i us s).recipients
  unfolding insert_recipients
  insert_recipients-UniqueRows [] s h = h
  insert_recipients-UniqueRows (u ∷ us) s h =
      insert_recipients-UniqueRows us _ (insert_recipient-UniqueRows u s h)

  insert_recipient_grows :
      (j : ℕ) (email : Text) (u : Unique) (s : Store)
      → has_row j email s.recipients ≡ true
      → has_row j email (insert_recipient rt now i u s).recipients ≡ true
  unfolding insert_recipient
  insert_recipient_grows j email u s h =
      ground (arith, has_row-append j email s.recipients (new_row rt now i s.next_id u ∷ []))

  insert_recipient-IsQueued : (u : Unique) (s : Store) → IsQueued (insert_recipient rt now i u s) u
  unfolding insert_recipient
  insert_recipient-IsQueued u s = ground (
    arith,
    has_row-append i u.email_normalized s.recipients (new_row rt now i s.next_id u ∷ []),
    text_eq_refl u.email_normalized,
  )

  insert_recipients_grows :
      (j : ℕ) (email : Text) (us : List Unique) (s : Store)
      → has_row j email s.recipients ≡ true
      → has_row j email (insert_recipients rt now i us s).recipients ≡ true
  unfolding insert_recipients
  insert_recipients_grows j email [] s h = h
  insert_recipients_grows j email (u ∷ us) s h =
      insert_recipients_grows j email us _ (insert_recipient_grows j email u s h)

  insert_recipients-IsQueued :
      (us : List Unique) (s : Store) → All (IsQueued (insert_recipients rt now i us s)) us
  unfolding insert_recipients
  insert_recipients-IsQueued [] s = tt
  insert_recipients-IsQueued (u ∷ us) s = (
    insert_recipients_grows i _ us _ (insert_recipient-IsQueued u s),
    insert_recipients-IsQueued us _,
  )

  -- Where every address has its row, the inserts do nothing.
  insert_recipients_again :
      (us : List Unique) (s : Store) → All (IsQueued s) us → insert_recipients rt now i us s ≡ s
  unfolding insert_recipients insert_recipient
  insert_recipients_again [] s h = refl
  insert_recipients_again (u ∷ us) s (h, hs) = rw h (insert_recipients_again us s hs)

-- A row that was just written: waiting, never tried, for this campaign, and for an address that is
-- not suppressed.
pub record IsNewRow (i : ℕ) (s : Store) (r : Recipient) : Type 0 where
  pub ours : r.campaign_id ≡ i
  pub waiting : r.delivery_status ≡ DeliveryStatus.queued
  pub untried : r.attempts ≡ 0
  pub welcome : is_suppressed s.suppressions r.email_normalized ≡ false

module _ (rt : Runtime) (now i : ℕ) where
  -- The rows after the inserts are the rows before, and new ones behind them.
  abbrev pub Adds : Store → List Recipient → List Recipient → Type 0
  Adds s before after =
      (added : List Recipient) × (after ≡ before ++ added) × All (IsNewRow i s) added

  Adds-cons :
      (s : Store) (before after : List Recipient) (r : Recipient)
      → IsNewRow i s r
      → Adds s (before ++ r ∷ []) after
      → Adds s before after
  Adds-cons s before after r n (added, e, h) =
      (r ∷ added, e ∙ append_assoc before (r ∷ []) added, (n, h))

  new_row-IsNewRow :
      (s : Store) (n : ℕ) (u : Unique)
      → is_suppressed s.suppressions u.email_normalized ≡ false
      → IsNewRow i s (new_row rt now i n u)
  unfolding new_row
  new_row-IsNewRow s n u h = record { ours = refl; waiting = refl; untried = refl; welcome = h }

  insert_recipients-Adds :
      (s : Store) (us : List Unique) (t : Store)
      → All (λ u. is_suppressed s.suppressions u.email_normalized ≡ false) us
      → Adds s t.recipients (insert_recipients rt now i us t).recipients
  unfolding insert_recipients insert_recipient
  insert_recipients-Adds s [] t h = ([], sym (append-nil t.recipients), tt)
  insert_recipients-Adds s (u ∷ us) t (h, hs) =
      elim (Bool-cases (has_row i u.email_normalized t.recipients)) [
        | inl e ↦ rw (e, insert_recipients) (insert_recipients-Adds s us t hs)
        | inr e ↦
            rw (e, insert_recipients)
              (Adds-cons s t.recipients _ (new_row rt now i t.next_id u)
                (new_row-IsNewRow s t.next_id u h) (insert_recipients-Adds s us _ hs))
      ]

  sendable_welcome :
      (s : Store)
      → All (λ u. is_suppressed s.suppressions u.email_normalized ≡ false) (sendable_for rt i s)
  unfolding sendable_for
  sendable_welcome s =
      All-mono _ _ _ (λ u h. ground arith)
        (All-select_self (λ u. not (is_suppressed s.suppressions u.email_normalized)) _)

  insert_recipient_sendable :
      (u : Unique) (s : Store)
      → sendable_for rt i (insert_recipient rt now i u s) ≡ sendable_for rt i s
  unfolding insert_recipient sendable_for load_candidates
  insert_recipient_sendable u s = elim (Bool-cases (has_row i u.email_normalized s.recipients)) [
    | inl e ↦ rw e refl
    | inr e ↦ rw e refl
  ]

  insert_recipients_sendable :
      (us : List Unique) (s : Store)
      → sendable_for rt i (insert_recipients rt now i us s) ≡ sendable_for rt i s
  unfolding insert_recipients
  insert_recipients_sendable [] s = refl
  insert_recipients_sendable (u ∷ us) s =
      insert_recipients_sendable us (insert_recipient rt now i u s) ∙ insert_recipient_sendable u s

  pub generate_recipients-Adds :
      (s : Store) → Adds s s.recipients (generate_recipients rt now i s).1.recipients
  unfolding generate_recipients
  generate_recipients-Adds s = insert_recipients-Adds s (sendable_for rt i s) s (sendable_welcome s)

  pub total-generate_recipients :
      (s : Store)
      → (generate_recipients rt now i s).0.total
        ≡ count_where (belongs_to i) (generate_recipients rt now i s).1.recipients
  unfolding generate_recipients
  total-generate_recipients s = refl

  -- The queue after `generate_recipients`: no address twice, nothing lost of what was there, a row for
  -- every sendable address, and the new rows wait, untried, for addresses that are not suppressed.
  generate_recipients_lem :
      (s : Store)
      → UniqueRows s.recipients
      → let s' = (generate_recipients rt now i s).1 in
        UniqueRows s'.recipients
        × All (IsQueued rt now i s') (sendable_for rt i s)
        × Adds s s.recipients s'.recipients
        × ((generate_recipients rt now i s).0.total ≡ count_where (belongs_to i) s'.recipients)
  unfolding generate_recipients
  generate_recipients_lem s h = (
    insert_recipients-UniqueRows rt now i (sendable_for rt i s) s h,
    insert_recipients-IsQueued rt now i (sendable_for rt i s) s,
    insert_recipients-Adds s (sendable_for rt i s) s (sendable_welcome s),
    refl,
  )

  generate_recipients_sendable :
      (s : Store) → sendable_for rt i (generate_recipients rt now i s).1 ≡ sendable_for rt i s
  unfolding generate_recipients sendable_for load_candidates
  generate_recipients_sendable s =
      unfold sendable_for load_candidates in insert_recipients_sendable (sendable_for rt i s) s

  -- Where every sendable address has its row, there is nothing to write.
  nothing_to_write :
      (t : Store)
      → All (IsQueued rt now i t) (sendable_for rt i t)
      → ((generate_recipients rt now i t).1.recipients ≡ t.recipients)
        × ((generate_recipients rt now i t).0.inserted ≡ 0)
  unfolding generate_recipients
  nothing_to_write t h =
      let e : insert_recipients rt now i (sendable_for rt i t) t ≡ t =
        insert_recipients_again rt now i (sendable_for rt i t) t h in
      (
        ap (λ (x : Store). x.recipients) e,
        ap (λ (x : Store). length x.recipients - length t.recipients) e ∙ omega arith,
      )

module _ (rt : Runtime) (now later i : ℕ) (s : Store) where
  -- Running it once more, for instance for a retried request, adds no row.
  generate_recipients_idempotent :
      let s' = (generate_recipients rt now i s).1 in
      ((generate_recipients rt later i s').1.recipients ≡ s'.recipients)
      × ((generate_recipients rt later i s').0.inserted ≡ 0)
  generate_recipients_idempotent =
      nothing_to_write rt later i (generate_recipients rt now i s).1
        (rw (generate_recipients_sendable rt now i s) written)
    where
      written : All (IsQueued rt later i (generate_recipients rt now i s).1) (sendable_for rt i s)
      written =
          unfold generate_recipients in insert_recipients-IsQueued rt now i (sendable_for rt i s) s

  -- Writing a campaign's queue keeps one row an address and campaign, keeps every row there was, gives
  -- every sendable address a row, adds only QUEUED, untried rows for addresses that are not suppressed,
  -- and reports as many as there are; writing it again adds no row. (One row an address and campaign
  -- at the start.)
  pub generate_recipients_twice :
      UniqueRows s.recipients
      → let s' = (generate_recipients rt now i s).1 in
        UniqueRows s'.recipients
        × All (IsQueued rt now i s') (sendable_for rt i s)
        × Adds rt now i s s.recipients s'.recipients
        × ((generate_recipients rt now i s).0.total ≡ count_where (belongs_to i) s'.recipients)
        × ((generate_recipients rt later i s').1.recipients ≡ s'.recipients)
        × ((generate_recipients rt later i s').0.inserted ≡ 0)
  generate_recipients_twice h =
      let (unique, complete, adds, total) = generate_recipients_lem rt now i s h in
      let (same, none_new) = generate_recipients_idempotent in
      (unique, complete, adds, total, same, none_new)

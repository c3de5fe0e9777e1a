-- ===== src/Suppression/Laws.antt =====
-- What an unsubscribe guarantees, and that repeating it changes nothing.
use ai_email_broadcast_hw.Base.{
  ℕ, ◌≡◌, refl, ◌∙◌, inl, inr, true, false, ◌||◌, List, [], ◌∷◌, Text, arith, All, Bool-cases,
  any-append, update_where, update_none, text_eq, text_eq→eq, text_eq_refl,
}
use ai_email_broadcast_hw.Store.{Store, Recipient, Suppression}
use ai_email_broadcast_hw.Queue.{is_suppressed}
use ai_email_broadcast_hw.Suppression.{
  SuppressInput, insert_suppression, is_waiting_for, withdraw_row, suppress_email,
}

withdrawn : (email : Text) (r : Recipient) → is_waiting_for email (withdraw_row r) ≡ false
unfolding is_waiting_for withdraw_row
withdrawn email r = ground arith

none_waiting :
    (email : Text) (rs : List Recipient)
    → All
        (λ r. is_waiting_for email r ≡ false)
        (update_where (is_waiting_for email) withdraw_row rs)
none_waiting email [] = tt
none_waiting email (r ∷ rs) = elim (Bool-cases (is_waiting_for email r)) [
  | inl e ↦ rw e (withdrawn email r, none_waiting email rs)
  | inr e ↦ rw e (e, none_waiting email rs)
]

absorb :
    (list : List Suppression) (key email : Text)
    → is_suppressed list key ≡ true
    → is_suppressed list email ≡ (is_suppressed list email || text_eq key email)
absorb list key email h = elim (Bool-cases (text_eq key email)) [
  | inl e ↦ let same = text_eq→eq key email e in rw (← same) (ground arith)
  | inr e ↦ ground arith
]

suppress_again :
    (later : ℕ) (again : SuppressInput) (s : Store)
    → is_suppressed s.suppressions again.email_normalized ≡ true
    → All (λ r. is_waiting_for again.email_normalized r ≡ false) s.recipients
    → suppress_email later again s ≡ s
unfolding suppress_email
suppress_again later again s h k = rw (h, update_none _ withdraw_row s.recipients k) refl

module _ (now : ℕ) (input : SuppressInput) (s : Store) where
  -- Exactly the addresses that were suppressed before are suppressed after, and the new one.
  is_suppressed-suppress_email :
      (email : Text)
      → is_suppressed (suppress_email now input s).suppressions email
        ≡ (is_suppressed s.suppressions email || text_eq input.email_normalized email)
  unfolding suppress_email
  is_suppressed-suppress_email email =
      elim (Bool-cases (is_suppressed s.suppressions input.email_normalized)) [
        | inl e ↦ rw e (absorb s.suppressions input.email_normalized email e)
        | inr e ↦ rw e (any-append _ s.suppressions _ ∙ ground arith)
      ]

  -- No row of that address is left waiting in any queue.
  suppress_email_empties :
      All
        (λ r. is_waiting_for input.email_normalized r ≡ false)
        (suppress_email now input s).recipients
  unfolding suppress_email
  suppress_email_empties =
      none_waiting input.email_normalized (insert_suppression now input s).recipients

  -- After an address was suppressed, exactly the addresses that were suppressed before are, and the
  -- new one; and no row of it is QUEUED, in any campaign.
  pub suppress_email_settles :
      (email : Text)
      → (is_suppressed (suppress_email now input s).suppressions email
          ≡ (is_suppressed s.suppressions email || text_eq input.email_normalized email))
        × All
            (λ r. is_waiting_for input.email_normalized r ≡ false)
            (suppress_email now input s).recipients
  suppress_email_settles email = (is_suppressed-suppress_email email, suppress_email_empties)

  -- A second request for the address, whenever it comes and whatever else it says, changes nothing.
  suppress_email_idempotent :
      (later : ℕ) (again : SuppressInput)
      → again.email_normalized ≡ input.email_normalized
      → suppress_email later again (suppress_email now input s) ≡ suppress_email now input s
  suppress_email_idempotent later again same =
      suppress_again later again (suppress_email now input s)
        (is_suppressed-suppress_email again.email_normalized ∙ listed)
        (rw same suppress_email_empties)
    where
      listed :
          (is_suppressed s.suppressions again.email_normalized
            || text_eq input.email_normalized again.email_normalized)
          ≡ true
      listed = rw same (ground (arith, text_eq_refl input.email_normalized))

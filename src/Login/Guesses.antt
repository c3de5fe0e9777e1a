-- ===== src/Login/Guesses.antt =====
-- A run of sign-in events in one window: an account that failed too often in it is refused.
use ai_email_broadcast_hw.Base.{
  ℕ, suc, ◌+◌, ◌*◌, ◌≤◌, ◌<◌, ◌≡◌, refl, sym, subst, ap, ◌∙◌, inl, inr, Bool, false, none, some,
  List, [], ◌∷◌, ◌++◌, Text, arith, ltb, if◌then◌else◌, length, text_eq, text_eq→eq, text_eq_refl,
  if_both, if_cases, Option-cases, All, count_where,
}
use ai_email_broadcast_hw.Login.{
  Entry, get, live, login_allowed, count, fresh, record_login_failure, record_login_success,
  max_keys, account_key, address_key, failures_of, max_failures_per_account, window_ms,
}
use ai_email_broadcast_hw.Login.Bounds.{
  Event, step, run, count-elim, live_found, length-count, length-record_login_failure, length-step,
}
use ai_email_broadcast_hw.Login.Refusal.{
  HasFailed, HasFailed-count_self, HasFailed-count_other, HasFailed-live, HasFailed-delete,
  within_window, get-append_missing, make_room_idle,
}

get-fresh : (k : Text) (now : ℕ) → get k (fresh k now ∷ []) ≡ some (fresh k now)
unfolding get
get-fresh k now = rw (text_eq_refl k) refl

module _ (lower : Text → Text) (email : Text) where
  unfoldable pub is_own : Text → Bool
  is_own other = text_eq (account_key lower other) (account_key lower email)

  -- A failed sign-in for the account.
  unfoldable pub is_guess : Event → Bool
  unfolding is_own
  is_guess (Event.failed other address now) = is_own other
  is_guess _ = false

  -- The event is before the end of the window, and is no successful sign-in for the account.
  unfoldable pub IsWithin : ℕ → Event → Type 0
  unfolding is_own
  IsWithin since (Event.asked other address now) = now < since + window_ms
  IsWithin since (Event.failed other address now) = now < since + window_ms
  IsWithin since (Event.succeeded other) = is_own other ≡ false

  address_is_no_account :
      (address other : Text) → text_eq (address_key address) (account_key lower other) ≡ false
  unfolding address_key account_key text_eq
  address_is_no_account address other = refl

  HasFailed-login_allowed :
      (k other address : Text) (since now n : ℕ) (m : List Entry)
      → now < since + window_ms
      → HasFailed since n (get k m)
      → HasFailed since n (get k (login_allowed lower other address now m).1)
  unfolding login_allowed
  HasFailed-login_allowed k other address since now n m t h =
      let kept = HasFailed-live k (account_key lower other) since now n m t h in
      if_both (λ (p : Bool × List Entry). HasFailed since n (get k p.1))
        (ltb (failures_of (live (account_key lower other) now m).0) max_failures_per_account)
        (HasFailed-live k (address_key address) since now n _ t kept) kept

  HasFailed-failure :
      (other address : Text) (since now n : ℕ) (m : List Entry)
      → now < since + window_ms
      → length m + 2 ≤ max_keys
      → HasFailed since n (get (account_key lower email) m)
      → HasFailed since
          (if is_own other then suc n else n)
          (get (account_key lower email) (record_login_failure lower other address now m))
  unfolding record_login_failure is_own
  HasFailed-failure other address since now n m t room h =
      let k = account_key lower email in
      let first =
        if_cases (λ i. HasFailed since i (get k (count (account_key lower other) now m)))
          (is_own other)
          (λ e.
            subst (λ j. HasFailed since (suc n) (get k (count j now m)))
              (sym (text_eq→eq (account_key lower other) k e))
              (HasFailed-count_self k since now n m t h))
          (λ e.
            HasFailed-count_other k (account_key lower other) since now n m e (omega (arith, room))
              h) in
      HasFailed-count_other k (address_key address) since now (if is_own other then suc n else n)
        (count (account_key lower other) now m) (address_is_no_account address email)
        (omega (arith, room, length-count (account_key lower other) now m)) first

  step-HasFailed :
      (since n : ℕ) (e : Event) (m : List Entry)
      → IsWithin since e
      → length m + 2 ≤ max_keys
      → HasFailed since n (get (account_key lower email) m)
      → HasFailed since
          (if is_guess e then suc n else n)
          (get (account_key lower email) (step lower e m))
  unfolding step IsWithin is_guess is_own record_login_success
  step-HasFailed since n (Event.asked other address now) m t room h =
      HasFailed-login_allowed (account_key lower email) other address since now n m t h
  step-HasFailed since n (Event.failed other address now) m t room h =
      HasFailed-failure other address since now n m t room h
  step-HasFailed since n (Event.succeeded other) m t room h =
      HasFailed-delete (account_key lower email) (account_key lower other) since n m t h

  run-HasFailed :
      (since n : ℕ) (es : List Event) (m : List Entry)
      → All (IsWithin since) es
      → length m + 2 * length es ≤ max_keys
      → HasFailed since n (get (account_key lower email) m)
      → HasFailed since
          (n + count_where is_guess es)
          (get (account_key lower email) (run lower es m))
  unfolding run
  run-HasFailed since n [] m w room h =
      subst (λ i. HasFailed since i (get (account_key lower email) m)) (omega arith) h
  run-HasFailed since n (e ∷ es) m (w, ws) room h =
      let i = if is_guess e then suc n else n in
      subst (λ j. HasFailed since j (get (account_key lower email) (run lower (e ∷ es) m)))
        (ground arith)
        (run-HasFailed since i es (step lower e m) ws (omega (arith, room, length-step lower e m))
          (step-HasFailed since n e m w (omega (arith, room)) h))

  first_failure :
      (address : Text) (now : ℕ) (m : List Entry)
      → get (account_key lower email) m ≡ none
      → length m + 2 ≤ max_keys
      → HasFailed now 1
          (get (account_key lower email) (record_login_failure lower email address now m))
  unfolding record_login_failure
  first_failure address now m missing room =
      let k = account_key lower email in
      let first =
        count-elim (λ c. HasFailed now 1 (get k c)) k now m (λ x e o. cc) (λ x e o. cc)
          (λ e.
            subst (HasFailed now 1)
              (sym (
                ap (λ c. get k (c ++ fresh k now ∷ [])) (make_room_idle m (omega (arith, room)))
                ∙ get-append_missing k m (fresh k now ∷ []) e
                ∙ get-fresh k now))
              (omega arith, omega arith)) in
      HasFailed-count_other k (address_key address) now now 1 (count k now m)
        (address_is_no_account address email) (omega (arith, room, length-count k now m)) first

  refused :
      (address : Text) (since now n : ℕ) (m : List Entry)
      → now < since + window_ms
      → max_failures_per_account ≤ n
      → HasFailed since n (get (account_key lower email) m)
      → (login_allowed lower email address now m).0 ≡ false
  unfolding login_allowed
  refused address since now n m t enough h = elim (Option-cases (get (account_key lower email) m)) [
    | inl e ↦ elim (subst (HasFailed since n) e h) [ ]
    | inr (x, e) ↦
        let (a, b) = subst (HasFailed since n) e h in
        rw (live_found (account_key lower email) now m x e (within_window since now x t a))
          (ground arith)
  ]

  -- Where nothing counts against an account, a sign-in for it fails at `since`, and seven more fail
  -- before the window that this opens is over, with none succeeding, then every sign-in for it is
  -- refused until the window is over, from whatever address and with whatever else the sign-in page
  -- was asked in between, as long as the map has room for the keys of these events.
  pub guesses_refused :
      (since now : ℕ) (first address : Text) (es : List Event) (m : List Entry)
      → get (account_key lower email) m ≡ none
      → All (IsWithin since) es
      → max_failures_per_account ≤ suc (count_where is_guess es)
      → length m + 2 + 2 * length es ≤ max_keys
      → now < since + window_ms
      → (login_allowed lower email address now
          (run lower es (record_login_failure lower email first since m))).0
        ≡ false
  guesses_refused since now first address es m missing within enough room t =
      refused address since now (1 + count_where is_guess es) _ t (omega (arith, enough)) (
        run-HasFailed since 1 es (record_login_failure lower email first since m) within
          (omega (arith, room, length-record_login_failure lower email first since m))
          (first_failure first since m missing (omega (arith, room))))

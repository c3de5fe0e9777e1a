-- ===== src/Login/Bounds.antt =====
-- How many keys the map holds.
use ai_email_broadcast_hw.Base.{
  ℕ, suc, ◌+◌, ◌≤◌, ◌<◌, ◌≡◌, refl, ap, ◌∙◌, inl, inr, true, false, none, some, List, [], ◌∷◌, ◌++◌,
  Text, arith, length, length-append, text_eq_refl, Bool-cases, Option-cases,
}
use ai_email_broadcast_hw.Login.{
  Entry, get, delete, live, live_in, login_allowed, bump, make_room, fresh, count,
  record_login_failure, record_login_success, max_keys, account_key, address_key, is_over,
}

-- At most `MAX_KEYS` keys.
abbrev pub IsBounded : List Entry → Type 0
IsBounded m = length m ≤ max_keys

pub length-delete : (k : Text) (m : List Entry) → length (delete k m) ≤ length m
length-delete k [] = omega arith
length-delete k (x ∷ xs) = ground (arith, length-delete k xs)

pub length-bump : (k : Text) (m : List Entry) → length (bump k m) ≡ length m
length-bump k [] = refl
length-bump k (x ∷ xs) = omega (arith, length-bump k xs)

pub length-live : (k : Text) (now : ℕ) (m : List Entry) → length (live k now m).1 ≤ length m
unfolding live
length-live k now m = ground (arith, length-delete k m)

length-make_room : (m : List Entry) → length m ≤ max_keys → length (make_room m) < max_keys
unfolding make_room
length-make_room [] h = omega arith
length-make_room (x ∷ xs) h = ground (arith, length-delete x.key xs, text_eq_refl x.key)

pub live_missing : (k : Text) (now : ℕ) (m : List Entry) → get k m ≡ none → live k now m ≡ (none, m)
unfolding live
live_missing k now m e = ap (live_in k now m) e

pub live_over :
    (k : Text) (now : ℕ) (m : List Entry) (x : Entry)
    → get k m ≡ some x
    → is_over now x ≡ true
    → live k now m ≡ (none, delete k m)
unfolding live
live_over k now m x e o = ap (live_in k now m) e ∙ rw o refl

pub live_found :
    (k : Text) (now : ℕ) (m : List Entry) (x : Entry)
    → get k m ≡ some x
    → is_over now x ≡ false
    → live k now m ≡ (some x, m)
unfolding live
live_found k now m x e o = ap (live_in k now m) e ∙ rw o refl

-- What one count does: a live entry is counted up, else there is a new one.
pub count-elim {κ} :
    (P : List Entry → Type κ) (k : Text) (now : ℕ) (m : List Entry)
    → ((x : Entry) → get k m ≡ some x → is_over now x ≡ false → P (bump k m))
    → ((x : Entry)
        → get k m ≡ some x
        → is_over now x ≡ true
        → P (make_room (delete k m) ++ fresh k now ∷ []))
    → (get k m ≡ none → P (make_room m ++ fresh k now ∷ []))
    → P (count k now m)
unfolding count
count-elim P k now m up over new = elim (Option-cases (get k m)) [
  | inl e ↦ rw (live_missing k now m e) (new e)
  | inr (x, e) ↦ elim (Bool-cases (is_over now x)) [
    | inl o ↦ rw (live_over k now m x e o) (over x e o)
    | inr o ↦ rw (live_found k now m x e o) (up x e o)
  ]
]

added :
    (k : Text) (now : ℕ) (m : List Entry)
    → IsBounded m
    → IsBounded (make_room m ++ fresh k now ∷ [])
added k now m h =
    omega (arith, length-make_room m h, length-append (make_room m) (fresh k now ∷ []))

pub IsBounded-count :
    (k : Text) (now : ℕ) (m : List Entry) → IsBounded m → IsBounded (count k now m)
IsBounded-count k now m h =
    count-elim IsBounded k now m (λ x e o. omega (arith, h, length-bump k m))
      (λ x e o. added k now (delete k m) (omega (arith, h, length-delete k m)))
      (λ e. added k now m h)

length-make_room_le : (m : List Entry) → length (make_room m) ≤ length m
unfolding make_room
length-make_room_le [] = omega arith
length-make_room_le (x ∷ xs) = ground (arith, length-delete x.key (x ∷ xs))

added_one :
    (k : Text) (now : ℕ) (m : List Entry)
    → length (make_room m ++ fresh k now ∷ []) ≤ suc (length m)
added_one k now m =
    omega (arith, length-make_room_le m, length-append (make_room m) (fresh k now ∷ []))

-- One count adds one key at most.
pub length-count : (k : Text) (now : ℕ) (m : List Entry) → length (count k now m) ≤ suc (length m)
length-count k now m =
    count-elim (λ c. length c ≤ suc (length m)) k now m (λ x e o. omega (arith, length-bump k m))
      (λ x e o. omega (arith, added_one k now (delete k m), length-delete k m))
      (λ e. added_one k now m)

pub length-login_allowed :
    (lower : Text → Text) (email address : Text) (now : ℕ) (m : List Entry)
    → length (login_allowed lower email address now m).1 ≤ length m
unfolding login_allowed
length-login_allowed lower email address now m = ground (
  arith,
  length-live (account_key lower email) now m,
  length-live (address_key address) now (live (account_key lower email) now m).1,
)

-- What the sign-in page asks of the throttle.
pub data Event : Type 0 where
  asked failed : (email address : Text) (now : ℕ) → Event
  succeeded : (email : Text) → Event

module _ (lower : Text → Text) where
  unfoldable pub step : Event → List Entry → List Entry
  unfolding login_allowed record_login_failure record_login_success
  step (Event.asked email address now) m = (login_allowed lower email address now m).1
  step (Event.failed email address now) m = record_login_failure lower email address now m
  step (Event.succeeded email) m = record_login_success lower email m

  unfoldable pub run : List Event → List Entry → List Entry
  unfolding step
  run [] m = m
  run (e ∷ es) m = run es (step e m)

  step-IsBounded : (e : Event) (m : List Entry) → IsBounded m → IsBounded (step e m)
  unfolding step record_login_failure record_login_success
  step-IsBounded (Event.asked email address now) m h =
      omega (arith, h, length-login_allowed lower email address now m)
  step-IsBounded (Event.failed email address now) m h =
      IsBounded-count _ now _ (IsBounded-count (account_key lower email) now m h)
  step-IsBounded (Event.succeeded email) m h =
      omega (arith, h, length-delete (account_key lower email) m)

  -- Whatever is asked, however many accounts fail from however many addresses, the map never holds
  -- more than `MAX_KEYS` keys.
  pub run-IsBounded : (es : List Event) (m : List Entry) → IsBounded m → IsBounded (run es m)
  unfolding run
  run-IsBounded [] m h = h
  run-IsBounded (e ∷ es) m h = run-IsBounded es (step e m) (step-IsBounded e m h)

  pub length-record_login_failure :
      (email address : Text) (now : ℕ) (m : List Entry)
      → length (record_login_failure lower email address now m) ≤ length m + 2
  unfolding record_login_failure
  length-record_login_failure email address now m = omega (
    arith,
    length-count (account_key lower email) now m,
    length-count (address_key address) now (count (account_key lower email) now m),
  )

  pub length-step : (e : Event) (m : List Entry) → length (step e m) ≤ length m + 2
  unfolding step record_login_success
  length-step (Event.asked email address now) m =
      omega (arith, length-login_allowed lower email address now m)
  length-step (Event.failed email address now) m = length-record_login_failure email address now m
  length-step (Event.succeeded email) m = omega (arith, length-delete (account_key lower email) m)

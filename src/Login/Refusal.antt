-- ===== src/Login/Refusal.antt =====
-- Guessing: an account that has failed too often is refused until its window is over.
use ai_email_broadcast_hw.Base.{
  ℕ, suc, ◌+◌, ◌≤◌, ◌<◌, ◌≡◌, refl, sym, subst, inl, inr, true, false, Option, none, some, List, [],
  ◌∷◌, ◌++◌, Text, arith, length, text_eq, text_eq→eq, Bool-cases, Option-cases, Impossible,
}
use ai_email_broadcast_hw.Login.{
  Entry, get, delete, live, bump, make_room, count, max_keys, is_over, window_ms,
}
use ai_email_broadcast_hw.Login.Bounds.{
  count-elim, live_missing, live_over, live_found, length-delete,
}

get-append_found :
    (k : Text) (m n : List Entry) (x : Entry) → get k m ≡ some x → get k (m ++ n) ≡ some x
unfolding get
get-append_found k [] n x h = cc
get-append_found k (y ∷ ys) n x h = ground (arith, get-append_found k ys n x)

pub get-append_missing : (k : Text) (m n : List Entry) → get k m ≡ none → get k (m ++ n) ≡ get k n
unfolding get
get-append_missing k [] n h = refl
get-append_missing k (y ∷ ys) n h = ground (arith, get-append_missing k ys n)

other_key : (a b k : Text) → text_eq a b ≡ true → text_eq b k ≡ false → text_eq a k ≡ false
other_key a b k e h = subst (λ t. text_eq t k ≡ false) (sym (text_eq→eq a b e)) h

get-delete_other :
    (k j : Text) (m : List Entry) → text_eq j k ≡ false → get k (delete j m) ≡ get k m
unfolding get
get-delete_other k j [] h = refl
get-delete_other k j (x ∷ xs) h =
    let rest = get-delete_other k j xs h in
    elim (Bool-cases (text_eq x.key j)) [
      | inl e ↦ rw (e, other_key x.key j k e h) rest
      | inr e ↦ rw (e, rest) refl
    ]

pub get-delete_self : (k : Text) (m : List Entry) → get k (delete k m) ≡ none
unfolding get
get-delete_self k [] = refl
get-delete_self k (x ∷ xs) = ground (arith, get-delete_self k xs)

get-bump_other : (k j : Text) (m : List Entry) → text_eq j k ≡ false → get k (bump j m) ≡ get k m
unfolding get
get-bump_other k j [] h = refl
get-bump_other k j (x ∷ xs) h =
    let rest = get-bump_other k j xs h in
    elim (Bool-cases (text_eq x.key j)) [
      | inl e ↦ rw (e, other_key x.key j k e h) rest
      | inr e ↦ rw (e, rest) refl
    ]

get-bump_self :
    (k : Text) (m : List Entry) (x : Entry)
    → get k m ≡ some x
    → get k (bump k m) ≡ some (record x { failures = suc x.failures })
unfolding get
get-bump_self k [] x h = cc
get-bump_self k (y ∷ ys) x h = ground (arith, get-bump_self k ys x)

pub make_room_idle : (m : List Entry) → length m < max_keys → make_room m ≡ m
unfolding make_room
make_room_idle [] h = refl
make_room_idle (x ∷ xs) h = ground arith

-- An entry that began at `since` or later and has `n` failures at least.
abbrev pub HasFailed : ℕ → ℕ → Option Entry → Type 0
HasFailed since n none = Impossible
HasFailed since n (some x) = (since ≤ x.window_started_at) × (n ≤ x.failures)

pub within_window :
    (since now : ℕ) (x : Entry)
    → now < since + window_ms
    → since ≤ x.window_started_at
    → is_over now x ≡ false
within_window since now x t h = ground arith

HasFailed-append :
    (k : Text) (since n : ℕ) (m r : List Entry)
    → HasFailed since n (get k m)
    → HasFailed since n (get k (m ++ r))
HasFailed-append k since n m r h = elim (Option-cases (get k m)) [
  | inl e ↦ elim (subst (HasFailed since n) e h) [ ]
  | inr (x, e) ↦
      subst (HasFailed since n) (sym (get-append_found k m r x e)) (subst (HasFailed since n) e h)
]

pub HasFailed-make_room :
    (k : Text) (since n : ℕ) (m r : List Entry)
    → length m < max_keys
    → HasFailed since n (get k m)
    → HasFailed since n (get k (make_room m ++ r))
HasFailed-make_room k since n m r room h =
    rw (make_room_idle m room) (HasFailed-append k since n m r h)

pub HasFailed-delete :
    (k j : Text) (since n : ℕ) (m : List Entry)
    → text_eq j k ≡ false
    → HasFailed since n (get k m)
    → HasFailed since n (get k (delete j m))
HasFailed-delete k j since n m d h = subst (HasFailed since n) (sym (get-delete_other k j m d)) h

-- A failure in the window counts the entry up.
pub HasFailed-count_self :
    (k : Text) (since now n : ℕ) (m : List Entry)
    → now < since + window_ms
    → HasFailed since n (get k m)
    → HasFailed since (suc n) (get k (count k now m))
HasFailed-count_self k since now n m t h =
    count-elim (λ c. HasFailed since (suc n) (get k c)) k now m
      (λ x e o.
        let (a, b) = subst (HasFailed since n) e h in
        subst (HasFailed since (suc n)) (sym (get-bump_self k m x e)) (a, omega (arith, b)))
      (λ x e o.
        let (a, b) = subst (HasFailed since n) e h in
        let live = within_window since now x t a in cc)
      (λ e. elim (subst (HasFailed since n) e h) [ ])

-- A failure of another key leaves it, where no key has to go.
pub HasFailed-count_other :
    (k j : Text) (since now n : ℕ) (m : List Entry)
    → text_eq j k ≡ false
    → length m < max_keys
    → HasFailed since n (get k m)
    → HasFailed since n (get k (count j now m))
HasFailed-count_other k j since now n m d room h =
    count-elim (λ c. HasFailed since n (get k c)) j now m
      (λ x e o. subst (HasFailed since n) (sym (get-bump_other k j m d)) h)
      (λ x e o.
        HasFailed-make_room k since n (delete j m) _ (omega (arith, room, length-delete j m))
          (HasFailed-delete k j since n m d h))
      (λ e. HasFailed-make_room k since n m _ room h)

-- To look a key up leaves an entry that is in its window.
pub HasFailed-live :
    (k j : Text) (since now n : ℕ) (m : List Entry)
    → now < since + window_ms
    → HasFailed since n (get k m)
    → HasFailed since n (get k (live j now m).1)
HasFailed-live k j since now n m t h = elim (Option-cases (get j m)) [
  | inl e ↦ rw (live_missing j now m e) h
  | inr (x, e) ↦ elim (Bool-cases (is_over now x)) [
    | inr o ↦ rw (live_found j now m x e o) h
    | inl o ↦ rw (live_over j now m x e o) (elim (Bool-cases (text_eq j k)) [
      | inr d ↦ HasFailed-delete k j since n m d h
      | inl d ↦
          let same = subst (λ k. HasFailed since n (get k m)) (sym (text_eq→eq j k d)) h in
          let (a, b) = subst (HasFailed since n) e same in
          let live = within_window since now x t a in cc
    ])
  ]
]

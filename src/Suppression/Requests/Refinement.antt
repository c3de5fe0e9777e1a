-- ===== src/Suppression/Requests/Refinement.antt =====
-- The list, through any requests, is a set of addresses.
use ai_email_broadcast_hw.Base.{
  ℕ, ◌≡◌, refl, ap, ◌∙◌, inl, inr, Bool, true, false, not, ◌&&◌, ◌||◌, Option, none, some, List, [],
  ◌∷◌, Text, arith, ltb, if◌then◌else◌, Bool-cases, Option-cases, any, length, select, update_where,
  text_eq, text_eq_comm, text_eq→eq,
}
use ai_email_broadcast_hw.Address.{normalize_email}
use ai_email_broadcast_hw.Api.{Response, ok, refused}
use ai_email_broadcast_hw.Input.{Value, str}
use ai_email_broadcast_hw.Store.{Store, Recipient, Suppression}
use ai_email_broadcast_hw.Queue.{is_suppressed}
use ai_email_broadcast_hw.Suppression.{
  SuppressInput, insert_suppression, is_waiting_for, withdraw_row, suppress_email, find_by_token,
  unsubscribe, lift_suppression,
}
use ai_email_broadcast_hw.Suppression.Laws.{suppress_email_settles}
use ai_email_broadcast_hw.Suppression.Requests.{
  Request, add, remove, follow, address_to_add, add_email, remove_email, serve, run,
}

-- Whose token it is, by the recipient rows.
abbrev pub owner_of : Option Recipient → Option Text
owner_of none = none
owner_of (some r) = some r.email_normalized

abbrev pub owner : List Recipient → Text → Option Text
unfolding find_by_token
owner rs token =
    if ltb (length token) 16 || ltb 128 (length token)
    then none
    else owner_of (find_by_token token rs)

-- The address that a request puts on the list, and the one that it takes off.
abbrev pub key_of : (Text → Text) → Response Text → Option Text
key_of lower (ok t) = some (normalize_email lower t)
key_of lower (refused code key) = none

abbrev pub added : (Text → Text) → (Text → Option Text) → Request → Option Text
unfolding address_to_add
added lower owners (add email note) = key_of lower (address_to_add email)
added lower owners (remove email) = none
added lower owners (follow token) = owners token

abbrev pub removed : (Text → Text) → Request → Option Text
unfolding str
removed lower (add email note) = none
removed lower (remove email) = key_of lower (str 254 true email)
removed lower (follow token) = none

abbrev pub is_the : Text → Option Text → Bool
is_the email none = false
is_the email (some key) = text_eq key email

-- The specification: a set of addresses, to which requests add and from which they remove.
pub listed : (Text → Text) → (Text → Option Text) → List (ℕ × Request) → (Text → Bool) → Text → Bool
unfolding added removed
listed lower owners [] set email = set email
listed lower owners ((now, r) ∷ rs) set email =
    listed lower owners rs
      (λ e. (set e && not (is_the e (removed lower r))) || is_the e (added lower owners r)) email

module _ (lower : Text → Text) where
  find-withdrawn :
      (p : Recipient → Bool) (token : Text) (rs : List Recipient)
      → owner_of (find_by_token token (update_where p withdraw_row rs))
        ≡ owner_of (find_by_token token rs)
  unfolding find_by_token withdraw_row
  find-withdrawn p token [] = refl
  find-withdrawn p token (r ∷ rs) = ground (arith, find-withdrawn p token rs)

  recipients-insert_suppression :
      (now : ℕ) (input : SuppressInput) (s : Store)
      → (insert_suppression now input s).recipients ≡ s.recipients
  unfolding insert_suppression
  recipients-insert_suppression now input s = ground arith

  owner-suppress_email :
      (now : ℕ) (input : SuppressInput) (s : Store) (token : Text)
      → owner (suppress_email now input s).recipients token ≡ owner s.recipients token
  unfolding suppress_email owner
  owner-suppress_email now input s token =
      ap (λ o. if ltb (length token) 16 || ltb 128 (length token) then none else o)
        (find-withdrawn (is_waiting_for input.email_normalized) token _
          ∙ ap (λ rs. owner_of (find_by_token token rs))
              (recipients-insert_suppression now input s))

  is_suppressed-lift :
      (t email : Text) (s : Store)
      → is_suppressed (lift_suppression lower t s).suppressions email
        ≡ (is_suppressed s.suppressions email && not (text_eq (normalize_email lower t) email))
  unfolding lift_suppression is_suppressed
  is_suppressed-lift t email s = go s.suppressions
    where
      go :
          (ps : List Suppression)
          → any
              (λ p. text_eq p.email_normalized email)
              (select (λ p. not (text_eq p.email_normalized (normalize_email lower t))) ps)
            ≡ (any (λ p. text_eq p.email_normalized email) ps
                && not (text_eq (normalize_email lower t) email))
      go [] = refl
      go (p ∷ ps) =
          let key = normalize_email lower t in
          elim (Bool-cases (text_eq p.email_normalized email)) [
            | inl f ↦ ground (
              arith,
              go ps,
              f,
              text_eq_comm key p.email_normalized,
              ap (text_eq key) (text_eq→eq p.email_normalized email f),
            )
            | inr f ↦ ground (arith, go ps, f)
          ]

  module _ (now : ℕ) (s : Store) (email : Text) where
    add_email_listed :
        (note : Value) (r : Response Text)
        → is_suppressed (add_email lower now note r s).1.suppressions email
          ≡ (is_suppressed s.suppressions email || is_the email (key_of lower r))
    unfolding add_email
    add_email_listed note (ok t) = (suppress_email_settles now _ s email).0
    add_email_listed note (refused code key) = ground arith

    remove_email_listed :
        (r : Response Text)
        → is_suppressed (remove_email lower r s).1.suppressions email
          ≡ (is_suppressed s.suppressions email && not (is_the email (key_of lower r)))
    unfolding remove_email
    remove_email_listed (ok t) = is_suppressed-lift t email s
    remove_email_listed (refused code key) = ground arith

    unsubscribe_listed :
        (token : Text)
        → is_suppressed (unsubscribe now token s).1.suppressions email
          ≡ (is_suppressed s.suppressions email || is_the email (owner s.recipients token))
    unfolding unsubscribe owner
    unsubscribe_listed token = elim (Bool-cases (ltb (length token) 16 || ltb 128 (length token))) [
      | inl c ↦ rw c (ground arith)
      | inr c ↦ rw c (elim (Option-cases (find_by_token token s.recipients)) [
        | inl e ↦ rw e (ground arith)
        | inr (r, e) ↦ rw e ((suppress_email_settles now _ s email).0)
      ])
    ]

  module _ (now : ℕ) (s : Store) (token : Text) where
    owner-add_email :
        (note : Value) (r : Response Text)
        → owner (add_email lower now note r s).1.recipients token ≡ owner s.recipients token
    unfolding add_email
    owner-add_email note (ok t) = owner-suppress_email now _ s token
    owner-add_email note (refused code key) = refl

    owner-remove_email :
        (r : Response Text)
        → owner (remove_email lower r s).1.recipients token ≡ owner s.recipients token
    unfolding remove_email lift_suppression
    owner-remove_email (ok t) = refl
    owner-remove_email (refused code key) = refl

    owner-unsubscribe :
        (t : Text) → owner (unsubscribe now t s).1.recipients token ≡ owner s.recipients token
    unfolding unsubscribe
    owner-unsubscribe t = elim (Bool-cases (ltb (length t) 16 || ltb 128 (length t))) [
      | inl c ↦ rw c refl
      | inr c ↦ rw c (elim (Option-cases (find_by_token t s.recipients)) [
        | inl e ↦ rw e refl
        | inr (r, e) ↦ rw e (owner-suppress_email now _ s token)
      ])
    ]

  -- One request, on the list and on the owners of the tokens.
  serve_listed :
      (now : ℕ) (r : Request) (s : Store) (email : Text)
      → is_suppressed (serve lower now r s).suppressions email ≡ (
          (is_suppressed s.suppressions email && not (is_the email (removed lower r)))
          || is_the email (added lower (owner s.recipients) r))
  unfolding serve added removed
  serve_listed now (add email' note) s email =
      ground (arith, add_email_listed now s email note (address_to_add email'))
  serve_listed now (remove email') s email =
      ground (arith, remove_email_listed now s email (str 254 true email'))
  serve_listed now (follow token) s email = ground (arith, unsubscribe_listed now s email token)

  owner-serve :
      (now : ℕ) (r : Request) (s : Store) (token : Text)
      → owner (serve lower now r s).recipients token ≡ owner s.recipients token
  unfolding serve
  owner-serve now (add email note) s token = owner-add_email now s token note (address_to_add email)
  owner-serve now (remove email) s token = owner-remove_email now s token (str 254 true email)
  owner-serve now (follow t) s token = owner-unsubscribe now s token t

  -- The specification reads its set, and the owners, only by what they say.
  listed-cong :
      (rs : List (ℕ × Request)) (o p : Text → Option Text) (set other : Text → Bool)
      → ((t : Text) → o t ≡ p t)
      → ((e : Text) → set e ≡ other e)
      → (e : Text) → listed lower o rs set e ≡ listed lower p rs other e
  unfolding listed added
  listed-cong [] o p set other h k e = k e
  listed-cong ((now, r) ∷ rs) o p set other h k e =
      listed-cong rs o p _ _ h
        (λ x.
          ap (λ b. (b && not (is_the x (removed lower r))) || is_the x (added lower o r)) (k x)
          ∙ ap (λ a. (other x && not (is_the x (removed lower r))) || is_the x a) (same r))
        e
    where
      same : (r : Request) → added lower o r ≡ added lower p r
      same (add email note) = refl
      same (remove email) = refl
      same (follow token) = h token

  -- Through any requests, of administrators to add an address or to remove one and of recipients
  -- who follow their link, valid or not, the table of suppressions is the specified set: it gains the
  -- normal form of each valid address that is added and the address of whoever's link is followed,
  -- loses that of each address that is removed, and nothing else ever changes it.
  pub run-listed :
      (rs : List (ℕ × Request)) (s : Store) (email : Text)
      → is_suppressed (run lower rs s).suppressions email
        ≡ listed lower (owner s.recipients) rs (is_suppressed s.suppressions) email
  unfolding run listed
  run-listed [] s email = refl
  run-listed ((now, r) ∷ rs) s email =
      run-listed rs (serve lower now r s) email
      ∙ listed-cong rs _ _ _ _ (owner-serve now r s) (serve_listed now r s) email

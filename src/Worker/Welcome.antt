-- ===== src/Worker/Welcome.antt =====
-- A round of the worker sends to no suppressed address.
use ai_email_broadcast_hw.Base.{
  ℕ, ◌≡◌, inl, inr, true, false, List, [], ◌∷◌, map, Text, arith, All, All-mono, Bool-cases, select,
  text_eq, text_eq_refl, text_eq→eq,
}
use ai_email_broadcast_hw.Store.{Store, Suppression}
use ai_email_broadcast_hw.Queue.{
  ClaimedRecipient, mark_campaigns_started, filter_suppressed, is_suppressed,
}
use ai_email_broadcast_hw.Worker.{has_text, triage, set_aside}

-- Every listed text of the given ones is kept.
has_text-select :
    (list : List Suppression) (t : Text) (ts : List Text)
    → is_suppressed list t ≡ true
    → has_text ts t ≡ true
    → has_text (select (is_suppressed list) ts) t ≡ true
has_text-select list t [] h m = m
has_text-select list t (x ∷ ts) h m = elim (Bool-cases (text_eq x t)) [
  | inl e ↦ rw (text_eq→eq x t e) (rw h (ground (arith, text_eq_refl t)))
  | inr e ↦
      let rest = has_text-select list t ts h (rw e at m) in
      elim (Bool-cases (is_suppressed list x)) [ inl k ↦ rw k (rw e rest) | inr k ↦ rw k rest ]
]

module _ {κ} (P : ClaimedRecipient → Type κ) (ts : List Text) where
  -- What is kept had the property before, and is none of the texts.
  triage-All :
      (cs : List ClaimedRecipient) (s : Store)
      → All P cs
      → All (λ c. P c × (has_text ts c.row.email_normalized ≡ false)) (triage ts cs s).sendable
  unfolding triage
  triage-All [] s h = tt
  triage-All (c ∷ cs) s (h, hs) = elim (Bool-cases (has_text ts c.row.email_normalized)) [
    | inl e ↦ rw (e, triage) (triage-All cs _ hs)
    | inr e ↦ rw (e, triage) ((h, e), triage-All cs s hs)
  ]

abbrev email_of : ClaimedRecipient → Text
email_of c = c.row.email_normalized

has_text_later :
    (x : Text) (ts : List Text) (cs : List ClaimedRecipient)
    → All (λ c. has_text ts (email_of c) ≡ true) cs
    → All (λ c. has_text (x ∷ ts) (email_of c) ≡ true) cs
has_text_later x ts cs h = All-mono _ _ cs (λ c k. ground (arith, k)) h

has_text_self :
    (cs : List ClaimedRecipient) → All (λ c. has_text (map email_of cs) (email_of c) ≡ true) cs
has_text_self [] = tt
has_text_self (c ∷ cs) =
    (ground (arith, text_eq_refl (email_of c)), has_text_later _ _ cs (has_text_self cs))

-- What a round sends once the suppressed rows have been set aside is addressed to nobody who is on
-- the suppression list.
pub set_aside_welcome :
    (now : ℕ) (cs : List ClaimedRecipient) (s : Store)
    → All
        (λ c. is_suppressed s.suppressions c.row.email_normalized ≡ false)
        (set_aside now cs s).sendable
unfolding set_aside mark_campaigns_started filter_suppressed
set_aside_welcome now cs s =
    All-mono _ _ (set_aside now cs s).sendable one
      (triage-All (λ c. has_text (map email_of cs) (email_of c) ≡ true) _ cs _ (has_text_self cs))
  where
    one :
        (c : ClaimedRecipient)
        → (has_text (map email_of cs) (email_of c) ≡ true)
          × (has_text (select (is_suppressed s.suppressions) (map email_of cs)) (email_of c)
              ≡ false)
        → is_suppressed s.suppressions (email_of c) ≡ false
    one c h = elim (Bool-cases (is_suppressed s.suppressions (email_of c))) [
      | inl e ↦
          absurd
            (ground (arith, has_text-select s.suppressions (email_of c) (map email_of cs) e h.0))
      | inr e ↦ e
    ]

-- ===== src/Audience/Estimate/Join.antt =====
-- What holds of some row of a join, and of every row.
use ai_email_broadcast_hw.Base.{
  ℕ, ◌≡◌, refl, sym, ap, subst, ◌∙◌, inl, inr, Bool, false, ◌||◌, some, List, [], ◌∷◌, map, arith,
  ◌==◌, if_both, Bool-cases, Option-cases, All, any, any-append, mem_id,
}
use ai_email_broadcast_hw.Base.Sort.{insert, sort}
use ai_email_broadcast_hw.Store.{Contact, Membership, CampaignList}
use ai_email_broadcast_hw.Audience.{find_contact, members_of}
use ai_email_broadcast_hw.Audience.Estimate.{joined}

pub any-cong :
    {A : Type 0} (p q : A → Bool) (xs : List A) → All (λ x. p x ≡ q x) xs → any p xs ≡ any q xs
any-cong p q [] h = refl
any-cong p q (x ∷ xs) (h, hs) = ground (arith, h, any-cong p q xs hs)

pub any-insert :
    {A : Type 0} (le : A → A → Bool) (p : A → Bool) (x : A) (xs : List A)
    → any p (insert le x xs) ≡ (p x || any p xs)
any-insert le p x [] = refl
any-insert le p x (y ∷ ys) = ground (arith, any-insert le p x ys)

pub any-sort :
    {A : Type 0} (le : A → A → Bool) (p : A → Bool) (xs : List A) → any p (sort le xs) ≡ any p xs
unfolding sort
any-sort le p [] = refl
any-sort le p (x ∷ xs) = any-insert le p x (sort le xs) ∙ ap (λ b. p x || b) (any-sort le p xs)

pub any-map :
    {A B : Type 0} (p : B → Bool) (f : A → B) (xs : List A)
    → any p (map f xs) ≡ any (λ x. p (f x)) xs
any-map p f [] = refl
any-map p f (x ∷ xs) = ap (λ b. p (f x) || b) (any-map p f xs)

-- The rows of the join, list by list or all at once.
module _ (contacts : List Contact) where
  members-nil :
      (p : Contact → Bool) (ms : List Membership) → any p (members_of [] contacts ms) ≡ false
  unfolding members_of
  members-nil p [] = refl
  members-nil p (m ∷ ms) = members-nil p ms

  members-cons :
      (p : Contact → Bool) (j : ℕ) (js : List ℕ) (ms : List Membership)
      → any p (members_of (j ∷ js) contacts ms)
        ≡ (any p (members_of (j ∷ []) contacts ms) || any p (members_of js contacts ms))
  unfolding members_of
  members-cons p j js [] = refl
  members-cons p j js (m ∷ ms) = elim (Option-cases (find_contact m.contact_id contacts)) [
    | inl e ↦ rw e (ground (arith, members-cons p j js ms))
    | inr (c, e) ↦ rw e (ground (arith, members-cons p j js ms))
  ]

  pub any-joined :
      (p : Contact → Bool) (ls : List CampaignList) (ms : List Membership)
      → any p (joined ls contacts ms)
        ≡ any p (members_of (map (λ (l : CampaignList). l.list_id) ls) contacts ms)
  unfolding joined
  any-joined p [] ms = sym (members-nil p ms)
  any-joined p (l ∷ ls) ms =
      any-append p (members_of (l.list_id ∷ []) contacts ms) (joined ls contacts ms)
      ∙ ap (λ b. any p (members_of (l.list_id ∷ []) contacts ms) || b) (any-joined p ls ms)
      ∙ sym (members-cons p l.list_id (map (λ (l : CampaignList). l.list_id) ls) ms)

  module _ (P : Contact → Type 0) where
    All-find :
        (i : ℕ) (cs : List Contact) (c : Contact) → All P cs → find_contact i cs ≡ some c → P c
    unfolding find_contact
    All-find i [] c h e = cc
    All-find i (x ∷ xs) c (h, hs) e = elim (Bool-cases (x.id == i)) [
      | inl m ↦ subst P (ground (arith, e, m)) h
      | inr m ↦ All-find i xs c hs (rw m at e)
    ]

    pub All-members_of :
        (lists : List ℕ) (ms : List Membership)
        → All P contacts
        → All P (members_of lists contacts ms)
    unfolding members_of
    All-members_of lists [] h = tt
    All-members_of lists (m ∷ ms) h =
        let rest = All-members_of lists ms h in
        if_both (All P) (mem_id m.list_id lists)
          (elim (Option-cases (find_contact m.contact_id contacts)) [
            | inl e ↦ rw e rest
            | inr (c, e) ↦ rw e (All-find m.contact_id contacts c h e, rest)
          ])
          rest

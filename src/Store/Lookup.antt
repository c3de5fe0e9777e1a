-- ===== src/Store/Lookup.antt =====
-- Campaigns by id: what an update does to the status of the one that it names.
use ai_email_broadcast_hw.Base.{
  ℕ, ◌≡◌, refl, ◌∙◌, inl, inr, Bool, true, false, Option, none, some, List, [], ◌∷◌, map, is_some,
  arith, ◌==◌, All, All-mono, Bool-cases, select, select_none, update_where,
}
use ai_email_broadcast_hw.Base.Keys.{Distinct, absent-ne}
use ai_email_broadcast_hw.Store.{Campaign, find_campaign}
use ai_email_broadcast_hw.Store.Status.{CampaignStatus}

abbrev pub first {ℓ} : {A : Type ℓ} → List A → Option A
first [] = none
first (x ∷ xs) = some x

-- Every campaign with this id has this status.
abbrev pub AllHaveStatus : ℕ → CampaignStatus → List Campaign → Type 0
AllHaveStatus i st cs = All (λ c. (c.id == i) ≡ true → c.status ≡ st) cs

pub update_keeps_status :
    (i : ℕ) (st : CampaignStatus) (p : Campaign → Bool) (f : Campaign → Campaign)
    (cs : List Campaign)
    → ((c : Campaign) → (f c).id ≡ c.id)
    → ((c : Campaign) → (f c).status ≡ c.status)
    → AllHaveStatus i st cs
    → AllHaveStatus i st (update_where p f cs)
update_keeps_status i st p f [] g k h = tt
update_keeps_status i st p f (c ∷ cs) g k (h, hs) =
    let rest = update_keeps_status i st p f cs g k hs in
    elim (Bool-cases (p c)) [
      | inl e ↦ rw e (λ m. k c ∙ h (rw (g c) at m), rest)
      | inr e ↦ rw e (h, rest)
    ]

pub update_sets_status :
    (i : ℕ) (st : CampaignStatus) (p : Campaign → Bool) (f : Campaign → Campaign)
    (cs : List Campaign)
    → ((c : Campaign) → (f c).status ≡ st)
    → ((c : Campaign) → (c.id == i) ≡ true → p c ≡ false → c.status ≡ st)
    → AllHaveStatus i st (update_where p f cs)
update_sets_status i st p f [] k q = tt
update_sets_status i st p f (c ∷ cs) k q =
    let rest = update_sets_status i st p f cs k q in
    elim (Bool-cases (p c)) [ inl e ↦ rw e (λ m. k c, rest) | inr e ↦ rw e (λ m. q c m e, rest) ]

pub find_campaign-status :
    (i : ℕ) (st : CampaignStatus) (cs : List Campaign) {c : Campaign}
    → AllHaveStatus i st cs
    → find_campaign i cs ≡ some c
    → c.status ≡ st
unfolding find_campaign
find_campaign-status i st [] h e = cc
find_campaign-status i st (x ∷ cs) (h, hs) e = elim (Bool-cases (x.id == i)) [
  | inl k ↦ same (rw k at e) (h k)
  | inr k ↦ find_campaign-status i st cs hs (rw k at e)
]
  where
    same : {c : Campaign} → some x ≡ some c → x.status ≡ st → c.status ≡ st
    same e h = ground arith

pub is_some-find-update :
    (i : ℕ) (p : Campaign → Bool) (f : Campaign → Campaign) (cs : List Campaign)
    → ((c : Campaign) → (f c).id ≡ c.id)
    → is_some (find_campaign i (update_where p f cs)) ≡ is_some (find_campaign i cs)
unfolding find_campaign
is_some-find-update i p f [] g = refl
is_some-find-update i p f (c ∷ cs) g = ground (arith, g c, is_some-find-update i p f cs g)

-- Where ids are distinct and a row of this id passes a test, every row of this id does.
pub only_row :
    (i : ℕ) (hit : Campaign → Bool) (cs : List Campaign) {c : Campaign}
    → Distinct (map (λ (c : Campaign). c.id) cs)
    → ((c : Campaign) → hit c ≡ true → (c.id == i) ≡ true)
    → first (select hit cs) ≡ some c
    → All (λ c. (c.id == i) ≡ true → hit c ≡ true) cs
only_row i hit [] d k e = tt
only_row i hit (x ∷ cs) (d, ds) k e = elim (Bool-cases (hit x)) [
  | inl h ↦ (
    λ _. h,
    All-mono _ _ cs (λ c n m. absurd (other c n m (k x h)))
        (absent-ne (λ (c : Campaign). c.id) x.id cs d),
  )
  | inr h ↦
      let later : first (select hit cs) ≡ some _ = rw h at e in
      (λ m. absurd (missing m later), only_row i hit cs ds k later)
]
  where
    other : (c : Campaign) → (c.id == x.id) ≡ false → (c.id == i) ≡ true → (x.id == i) ≡ true → ⊥
    other c n m o = ground arith

    missing : {c : Campaign} → (x.id == i) ≡ true → first (select hit cs) ≡ some c → ⊥
    missing m later = cc (later, select_none hit cs none_hit)
      where
        one : (c : Campaign) → (c.id == x.id) ≡ false → hit c ≡ false
        one c n = elim (Bool-cases (hit c)) [ inl h ↦ absurd (other c n (k c h) m) | inr h ↦ h ]

        none_hit : All (λ c. hit c ≡ false) cs
        none_hit = All-mono _ _ cs one (absent-ne (λ (c : Campaign). c.id) x.id cs d)

-- What is selected by id is there.
pub is_some-find_of_select :
    (i : ℕ) (hit : Campaign → Bool) (cs : List Campaign) {c : Campaign}
    → ((c : Campaign) → (c.id == i) ≡ false → hit c ≡ false)
    → first (select hit cs) ≡ some c
    → is_some (find_campaign i cs) ≡ true
unfolding find_campaign
is_some-find_of_select i hit [] k e = cc
is_some-find_of_select i hit (x ∷ cs) k e = elim (Bool-cases (x.id == i)) [
  | inl m ↦ rw m refl
  | inr m ↦ rw m (is_some-find_of_select i hit cs k (rw (k x m) at e))
]

-- Where nothing is selected, no row passes the test.
pub none_of_first {ℓ} :
    {A : Type ℓ} (p : A → Bool) (xs : List A)
    → first (select p xs) ≡ none
    → All (λ x. p x ≡ false) xs
none_of_first p [] h = tt
none_of_first p (x ∷ xs) h = elim (Bool-cases (p x)) [
  | inl e ↦ absurd (ground arith)
  | inr e ↦ (e, none_of_first p xs (rw e at h))
]

-- ===== src/Queue/Claim.antt =====
-- What `claim_recipients` may take, how much of it, in which order, and that two workers share
-- nothing.
mod Tests
pub mod Order
pub mod Workers
pub mod Taken
use ai_email_broadcast_hw.Base.{
  ℕ, zero, suc, ◌≤◌, ◌+◌, ◌≡◌, refl, sym, ap, ◌∙◌, ◌⊎◌, inl, inr, Bool, true, false, not, ◌&&◌,
  ◌||◌, List, [], ◌∷◌, ◌++◌, map, String, Option, none, some, min, arith, ◌==◌, leb, if◌then◌else◌,
  All, All-mono, All-select_self, Bool-cases, Option-cases, Pointwise, Pointwise-update_where,
  count_where, select, update_where, length, length-take, length-select, length-map, take, drop,
  mem_id,
}
use ai_email_broadcast_hw.Base.Sort.{
  sort, length-sort, count_where-sort, IsSorted-sort, Precede, take-Precede-drop,
}
use ai_email_broadcast_hw.Base.Keys.{
  Distinct, Distinct-take, Distinct-sort, Distinct-select, mem_id-take, mem_id-sort, mem_id-select,
  picked, count_where-mem_id, mem_id_self, mem_id-select_ids, mem_id-select_none,
}
use ai_email_broadcast_hw.Store.{Store, Campaign, Recipient, find_campaign}
use ai_email_broadcast_hw.Store.Status.{CampaignStatus, DeliveryStatus, delivery_is}
use ai_email_broadcast_hw.Queue.{
  Config, ClaimedRecipient, is_sendable, is_claimable, before, due_rows, claim_row, with_content,
  claim_recipients,
}

abbrev pub ids : List Recipient → List ℕ
ids = map (λ r. r.id)

abbrev pub claimable : ℕ → (ℕ → Bool) → Store → List Recipient
claimable now locked s = select (is_claimable now locked s.campaigns) s.recipients

before_total : (r q : Recipient) → before r q ≡ false → before q r ≡ true
unfolding before
before_total r q h = ground arith

before_trans : (r q t : Recipient) → before r q ≡ true → before q t ≡ true → before r t ≡ true
unfolding before
before_trans r q t h k = ground arith

not_due :
    (now limit i : ℕ) (locked : ℕ → Bool) (s : Store)
    → mem_id i (ids (claimable now locked s)) ≡ false
    → mem_id i (ids (due_rows now locked limit s)) ≡ false
unfolding due_rows
not_due now limit i locked s e =
    mem_id-take (λ r. r.id) i limit (sort before (claimable now locked s))
      (mem_id-sort (λ r. r.id) before i (claimable now locked s) ∙ e)

due_of_claimable :
    (now limit i : ℕ) (locked : ℕ → Bool) (s : Store)
    → mem_id i (ids (due_rows now locked limit s)) ≡ true
    → mem_id i (ids (claimable now locked s)) ≡ true
due_of_claimable now limit i locked s h =
    elim (Bool-cases (mem_id i (ids (claimable now locked s)))) [
      | inl e ↦ e
      | inr e ↦ cc (h, not_due now limit i locked s e)
    ]

map-with_content :
    (cs : List Campaign) (rs : List Recipient)
    → All (λ r. is_sendable (find_campaign r.campaign_id cs) ≡ true) rs
    → map (λ (c : ClaimedRecipient). c.row) (with_content cs rs) ≡ rs
unfolding with_content is_sendable
map-with_content cs [] h = refl
map-with_content cs (r ∷ rs) (h, hs) = ground (arith, map-with_content cs rs hs)

due_rows_zero :
    (now limit : ℕ) (locked : ℕ → Bool) (s : Store)
    → (limit == 0) ≡ true
    → due_rows now locked limit s ≡ []
unfolding due_rows
due_rows_zero now limit locked s e = let z : limit ≡ 0 = ground arith in rw z refl

select_none : (rs : List Recipient) → select (λ r. mem_id r.id []) rs ≡ []
select_none [] = refl
select_none (r ∷ rs) = select_none rs

select_nothing : (ds rs : List Recipient) → ds ≡ [] → select (λ r. mem_id r.id (ids ds)) rs ≡ []
select_nothing ds rs e = ap (λ ds'. select (λ r. mem_id r.id (ids ds')) rs) e ∙ select_none rs

update_nothing :
    (ds : List Recipient) (f : Recipient → Recipient) (rs : List Recipient)
    → ds ≡ []
    → update_where (λ r. mem_id r.id (ids ds)) f rs ≡ rs
update_nothing ds f rs e = ap (λ ds'. update_where (λ r. mem_id r.id (ids ds')) f rs) e ∙ same rs
  where
    same : (qs : List Recipient) → update_where (λ r. mem_id r.id []) f qs ≡ qs
    same [] = refl
    same (q ∷ qs) = ap (◌∷◌ q) (same qs)

-- What a claim does to one row.
abbrev pub ClaimsRow : Config → String → ℕ → (ℕ → Bool) → Store → Recipient → Recipient → Type 0
ClaimsRow cfg worker now locked s r q =
    (q ≡ r) ⊎ ((is_claimable now locked s.campaigns r ≡ true) × (q ≡ claim_row cfg worker now r))

-- The rows that a claim writes.
abbrev pub taken : ℕ → (ℕ → Bool) → ℕ → Store → Recipient → Bool
taken now locked limit s r = mem_id r.id (ids (due_rows now locked limit s))

-- The ids of the rows that a claim returns.
abbrev pub claimed_ids : Config → String → ℕ → ℕ → (ℕ → Bool) → Store → List ℕ
claimed_ids cfg worker limit now locked s =
    ids (map (λ (c : ClaimedRecipient). c.row) (claim_recipients cfg worker limit now locked s).0)

-- The rows after a claim, whatever the limit.
pub recipients-claim :
    (cfg : Config) (worker : String) (limit now : ℕ) (locked : ℕ → Bool) (s : Store)
    → (claim_recipients cfg worker limit now locked s).1.recipients
      ≡ update_where (taken now locked limit s) (claim_row cfg worker now) s.recipients
unfolding claim_recipients
recipients-claim cfg worker limit now locked s = elim (Bool-cases (limit == 0)) [
  | inl e ↦ rw e (sym (update_nothing _ _ s.recipients (due_rows_zero now limit locked s e)))
  | inr e ↦ rw e refl
]

module _ (cfg : Config) (worker : String) (limit now : ℕ) (locked : ℕ → Bool) (s : Store)
    (keys : Distinct (ids s.recipients)) where
  taken_claimable :
      All
        (λ r. taken now locked limit s r ≡ true → is_claimable now locked s.campaigns r ≡ true)
        s.recipients
  taken_claimable =
      All-mono _ _ s.recipients (λ r k t. k (due_of_claimable now limit r.id locked s t))
        (picked (λ r. r.id) (is_claimable now locked s.campaigns) s.recipients keys)

  -- A claim writes only rows that were claimable, and writes them as `claim_row` says; every other
  -- row stays as it was.
  pub claim-Pointwise :
      Pointwise
        (ClaimsRow cfg worker now locked s)
        s.recipients
        (claim_recipients cfg worker limit now locked s).1.recipients
  claim-Pointwise = rw (recipients-claim cfg worker limit now locked s) (
      Pointwise-update_where (ClaimsRow cfg worker now locked s) (taken now locked limit s)
        (claim_row cfg worker now) s.recipients (λ r k. inl refl)
        (All-mono _ _ s.recipients (λ r k t. inr (k t, refl)) taken_claimable))

  due_keys : Distinct (ids (due_rows now locked limit s))
  unfolding due_rows
  due_keys =
      Distinct-take (λ r. r.id) limit _
        (Distinct-sort (λ r. r.id) before _ (Distinct-select (λ r. r.id) _ s.recipients keys))

  due_present :
      (i : ℕ)
      → mem_id i (ids (due_rows now locked limit s)) ≡ true
      → mem_id i (ids s.recipients) ≡ true
  due_present i h = elim (Bool-cases (mem_id i (ids s.recipients))) [
    | inl e ↦ e
    | inr e ↦ cc (
      due_of_claimable now limit i locked s h,
      mem_id-select (λ r. r.id) i (is_claimable now locked s.campaigns) s.recipients e,
    )
  ]

  length-due :
      length (due_rows now locked limit s)
      ≡ min limit (count_where (is_claimable now locked s.campaigns) s.recipients)
  unfolding due_rows
  length-due =
      length-take limit (sort before (claimable now locked s))
      ∙ ap (min limit) (
          length-sort before (claimable now locked s)
          ∙ length-select (is_claimable now locked s.campaigns) s.recipients)

  count-taken :
      count_where (taken now locked limit s) s.recipients
      ≡ min limit (count_where (is_claimable now locked s.campaigns) s.recipients)
  count-taken =
      count_where-mem_id (λ r. r.id) (ids (due_rows now locked limit s)) s.recipients keys due_keys
        (All-mono _ _ _ (λ i h. due_present i h) (mem_id_self (ids (due_rows now locked limit s))))
      ∙ length-map (λ (r : Recipient). r.id) (due_rows now locked limit s)
      ∙ length-due

  taken_sendable :
      (rs : List Recipient)
      → All
          (λ r. taken now locked limit s r ≡ true → is_claimable now locked s.campaigns r ≡ true)
          rs
      → All
          (λ r. is_sendable (find_campaign r.campaign_id s.campaigns) ≡ true)
          (map (claim_row cfg worker now) (select (taken now locked limit s) rs))
  unfolding claim_row is_claimable
  taken_sendable [] h = tt
  taken_sendable (r ∷ rs) (h, hs) = elim (Bool-cases (taken now locked limit s r)) [
    | inl e ↦ rw e (ground (arith, h e), taken_sendable rs hs)
    | inr e ↦ rw e (taken_sendable rs hs)
  ]

  -- The rows that are returned are the rows that are written, as written.
  claimed_rows :
      map (λ (c : ClaimedRecipient). c.row) (claim_recipients cfg worker limit now locked s).0
      ≡ map (claim_row cfg worker now) (select (taken now locked limit s) s.recipients)
  unfolding claim_recipients
  claimed_rows = elim (Bool-cases (limit == 0)) [
    | inl e ↦ rw e (
        sym (
          ap (map (claim_row cfg worker now))
            (select_nothing _ s.recipients (due_rows_zero now limit locked s e))))
    | inr e ↦ rw e (map-with_content _ _ (taken_sendable s.recipients taken_claimable))
  ]

  -- It returns as many rows as the limit allows and no more.
  pub length-claim :
      length (claim_recipients cfg worker limit now locked s).0
      ≡ min limit (count_where (is_claimable now locked s.campaigns) s.recipients)
  length-claim =
      sym (length-map (λ (c : ClaimedRecipient). c.row) _)
      ∙ ap length claimed_rows
      ∙ length-map (claim_row cfg worker now) (select (taken now locked limit s) s.recipients)
      ∙ length-select (taken now locked limit s) s.recipients
      ∙ count-taken

  ids-claim_row : (rs : List Recipient) → ids (map (claim_row cfg worker now) rs) ≡ ids rs
  unfolding claim_row
  ids-claim_row [] = refl
  ids-claim_row (r ∷ rs) = ground (arith, ids-claim_row rs)

  pub mem_id-claimed_ids :
      (i : ℕ)
      → mem_id i (claimed_ids cfg worker limit now locked s)
        ≡ mem_id i (ids (due_rows now locked limit s))
  mem_id-claimed_ids i =
      ap (λ rs. mem_id i (ids rs)) claimed_rows
      ∙ ap (mem_id i) (ids-claim_row (select (taken now locked limit s) s.recipients))
      ∙ mem_id-select_ids (λ r. r.id) i (ids (due_rows now locked limit s)) s.recipients
      ∙ absorb i
    where
      absorb :
          (i : ℕ)
          → (mem_id i (ids s.recipients) && mem_id i (ids (due_rows now locked limit s)))
            ≡ mem_id i (ids (due_rows now locked limit s))
      absorb i = ground (arith, due_present i)

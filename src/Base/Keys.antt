-- ===== src/Base/Keys.antt =====
-- Rows with a primary key: an update by a list of keys reaches the selected rows and no other.
use ai_email_broadcast_hw.Base.{
  ℕ, zero, suc, ◌+◌, ◌≡◌, refl, ◌∙◌, inl, inr, Bool, true, false, ◌&&◌, List, [], ◌∷◌, map, arith,
  ◌==◌, All, All-mono, Bool-cases, count_where, select, update_where, length, take, mem_id,
}
use ai_email_broadcast_hw.Base.Sort.{insert, sort}

-- No key stands twice.
abbrev pub Distinct : List ℕ → Type 0
Distinct [] = Unit
Distinct (i ∷ is) = (mem_id i is ≡ false) × Distinct is

module _ {ℓ} {A : Type ℓ} (key : A → ℕ) where
  pub mem_id-take :
      (i n : ℕ) (xs : List A)
      → mem_id i (map key xs) ≡ false
      → mem_id i (map key (take n xs)) ≡ false
  mem_id-take i zero xs h = refl
  mem_id-take i (suc n) [] h = refl
  mem_id-take i (suc n) (x ∷ xs) h = ground (arith, mem_id-take i n xs)

  pub mem_id-select :
      (i : ℕ) (p : A → Bool) (xs : List A)
      → mem_id i (map key xs) ≡ false
      → mem_id i (map key (select p xs)) ≡ false
  mem_id-select i p [] h = refl
  mem_id-select i p (x ∷ xs) h = ground (arith, mem_id-select i p xs)

  module _ (le : A → A → Bool) where
    mem_id-insert :
        (i : ℕ) (x : A) (ys : List A)
        → mem_id i (map key (insert le x ys)) ≡ mem_id i (map key (x ∷ ys))
    mem_id-insert i x [] = refl
    mem_id-insert i x (y ∷ ys) = ground (arith, mem_id-insert i x ys)

    pub mem_id-sort :
        (i : ℕ) (xs : List A) → mem_id i (map key (sort le xs)) ≡ mem_id i (map key xs)
    unfolding sort
    mem_id-sort i [] = refl
    mem_id-sort i (x ∷ xs) = ground (arith, mem_id-insert i x (sort le xs), mem_id-sort i xs)

    Distinct-insert :
        (x : A) (ys : List A)
        → mem_id (key x) (map key ys) ≡ false
        → Distinct (map key ys)
        → Distinct (map key (insert le x ys))
    Distinct-insert x [] h d = (refl, tt)
    Distinct-insert x (y ∷ ys) h (d, ds) =
        ground (arith, mem_id-insert (key y) x ys, Distinct-insert x ys)

    pub Distinct-sort : (xs : List A) → Distinct (map key xs) → Distinct (map key (sort le xs))
    unfolding sort
    Distinct-sort [] d = tt
    Distinct-sort (x ∷ xs) (d, ds) =
        Distinct-insert x (sort le xs) (mem_id-sort (key x) xs ∙ d) (Distinct-sort xs ds)

  pub Distinct-take : (n : ℕ) (xs : List A) → Distinct (map key xs) → Distinct (map key (take n xs))
  Distinct-take zero xs d = tt
  Distinct-take (suc n) [] d = tt
  Distinct-take (suc n) (x ∷ xs) (d, ds) = (mem_id-take (key x) n xs d, Distinct-take n xs ds)

  pub Distinct-select :
      (p : A → Bool) (xs : List A) → Distinct (map key xs) → Distinct (map key (select p xs))
  Distinct-select p [] d = tt
  Distinct-select p (x ∷ xs) (d, ds) =
      ground (arith, mem_id-select (key x) p xs, Distinct-select p xs)

  -- A key that is not there is no row's key.
  pub absent-ne :
      (i : ℕ) (xs : List A) → mem_id i (map key xs) ≡ false → All (λ r. (key r == i) ≡ false) xs
  absent-ne i [] h = tt
  absent-ne i (x ∷ xs) h = (ground arith, absent-ne i xs (ground arith))

  picked_head :
      (p : A → Bool) (x : A) (xs : List A)
      → mem_id (key x) (map key xs) ≡ false
      → mem_id (key x) (map key (select p (x ∷ xs))) ≡ true
      → p x ≡ true
  picked_head p x xs d h = elim (Bool-cases (p x)) [
    | inl e ↦ e
    | inr e ↦ ground (arith, mem_id-select (key x) p xs d)
  ]

  picked_tail :
      (p : A → Bool) (x r : A) (xs : List A)
      → (key r == key x) ≡ false
      → mem_id (key r) (map key (select p (x ∷ xs))) ≡ true
      → mem_id (key r) (map key (select p xs)) ≡ true
  picked_tail p x r xs d h = ground arith

  -- Where keys are distinct, a row whose key was selected passes the test itself.
  pub picked :
      (p : A → Bool) (xs : List A)
      → Distinct (map key xs)
      → All (λ r. mem_id (key r) (map key (select p xs)) ≡ true → p r ≡ true) xs
  picked p [] d = tt
  picked p (x ∷ xs) (d, ds) =
      (picked_head p x xs d, All-both xs (absent-ne (key x) xs d) (picked p xs ds))
    where
      All-both :
          (ys : List A)
          → All (λ r. (key r == key x) ≡ false) ys
          → All (λ r. mem_id (key r) (map key (select p xs)) ≡ true → p r ≡ true) ys
          → All (λ r. mem_id (key r) (map key (select p (x ∷ xs))) ≡ true → p r ≡ true) ys
      All-both [] h k = tt
      All-both (r ∷ ys) (h, hs) (k, ks) = (λ m. k (picked_tail p x r xs h m), All-both ys hs ks)

  count_absent :
      (i : ℕ) (xs : List A) → mem_id i (map key xs) ≡ false → count_where (λ r. key r == i) xs ≡ 0
  count_absent i [] h = refl
  count_absent i (x ∷ xs) h = ground (arith, count_absent i xs)

  count_present :
      (i : ℕ) (xs : List A)
      → Distinct (map key xs)
      → mem_id i (map key xs) ≡ true
      → count_where (λ r. key r == i) xs ≡ 1
  count_present i [] d h = cc
  count_present i (x ∷ xs) (d, ds) h = elim (Bool-cases (key x == i)) [
    | inl e ↦ rw e (ap_suc (same e))
    | inr e ↦ rw e (count_present i xs ds (ground arith))
  ]
    where
      ap_suc : count_where (λ r. key r == i) xs ≡ 0 → suc (count_where (λ r. key r == i) xs) ≡ 1
      ap_suc k = omega arith

      same : (key x == i) ≡ true → count_where (λ r. key r == i) xs ≡ 0
      same e = ground (arith, count_absent i xs)

  count_split :
      (i : ℕ) (is : List ℕ) (xs : List A)
      → mem_id i is ≡ false
      → count_where (λ r. mem_id (key r) (i ∷ is)) xs
        ≡ count_where (λ r. key r == i) xs + count_where (λ r. mem_id (key r) is) xs
  count_split i is [] h = omega arith
  count_split i is (x ∷ xs) h = elim (Bool-cases (key x == i)) [
    | inl e ↦ ground (arith, count_split i is xs h)
    | inr e ↦ ground (arith, count_split i is xs h)
  ]

  -- Distinct keys that all occur pick out one row each.
  pub count_where-mem_id :
      (is : List ℕ) (xs : List A)
      → Distinct (map key xs)
      → Distinct is
      → All (λ i. mem_id i (map key xs) ≡ true) is
      → count_where (λ r. mem_id (key r) is) xs ≡ length is
  count_where-mem_id [] xs d e h = none_picked xs
    where
      none_picked : (ys : List A) → count_where (λ r. false) ys ≡ 0
      none_picked [] = refl
      none_picked (y ∷ ys) = none_picked ys
  count_where-mem_id (i ∷ is) xs d (e, es) (h, hs) =
      omega (arith, count_split i is xs e, count_present i xs d h, count_where-mem_id is xs d es hs)

  -- An update that leaves the key alone leaves the keys alone.
  pub map-update_where :
      (p : A → Bool) (f : A → A) (xs : List A)
      → ((x : A) → key (f x) ≡ key x)
      → map key (update_where p f xs) ≡ map key xs
  map-update_where p f [] h = refl
  map-update_where p f (x ∷ xs) h = ground (arith, h x, map-update_where p f xs h)

  -- The keys of the rows that a list of keys selects.
  pub mem_id-select_ids :
      (i : ℕ) (is : List ℕ) (xs : List A)
      → mem_id i (map key (select (λ r. mem_id (key r) is) xs))
        ≡ (mem_id i (map key xs) && mem_id i is)
  mem_id-select_ids i is [] = refl
  mem_id-select_ids i is (x ∷ xs) = ground (arith, mem_id-select_ids i is xs)

  -- A key of which every row fails the test is not selected.
  pub mem_id-select_none :
      (i : ℕ) (p : A → Bool) (xs : List A)
      → All (λ r. (key r == i) ≡ true → p r ≡ false) xs
      → mem_id i (map key (select p xs)) ≡ false
  mem_id-select_none i p [] h = refl
  mem_id-select_none i p (x ∷ xs) (h, hs) = ground (arith, h, mem_id-select_none i p xs hs)

pub mem_id_self : (is : List ℕ) → All (λ i. mem_id i is ≡ true) is
mem_id_self [] = tt
mem_id_self (i ∷ is) = (ground arith, All-mono _ _ is (λ j h. ground (arith, h)) (mem_id_self is))

-- ===== src/Base/Sort.antt =====
-- `ORDER BY` and `LIMIT`: a stable insertion sort, and the rows that a limit keeps and drops.
use ai_email_broadcast_hw.Base.{
  ℕ, zero, suc, ◌≡◌, refl, ◌∙◌, ap, inl, inr, Bool, true, false, List, [], ◌∷◌, arith, All,
  All-mono, Bool-cases, count_where, length, take, drop, if◌then◌else◌,
}

module _ {ℓ} {A : Type ℓ} (le : A → A → Bool) where
  abbrev pub insert : A → List A → List A
  insert x [] = x ∷ []
  insert x (y ∷ ys) = if le x y then x ∷ y ∷ ys else y ∷ insert x ys

  unfoldable pub sort : List A → List A
  sort [] = []
  sort (x ∷ xs) = insert x (sort xs)

  count_where-insert :
      (p : A → Bool) (x : A) (ys : List A) → count_where p (insert x ys) ≡ count_where p (x ∷ ys)
  count_where-insert p x [] = refl
  count_where-insert p x (y ∷ ys) = ground (arith, count_where-insert p x ys)

  pub count_where-sort : (p : A → Bool) (xs : List A) → count_where p (sort xs) ≡ count_where p xs
  unfolding sort
  count_where-sort p [] = refl
  count_where-sort p (x ∷ xs) =
      ground (arith, count_where-insert p x (sort xs), count_where-sort p xs)

  length-insert : (x : A) (ys : List A) → length (insert x ys) ≡ suc (length ys)
  length-insert x [] = refl
  length-insert x (y ∷ ys) = ground (arith, length-insert x ys)

  pub length-sort : (xs : List A) → length (sort xs) ≡ length xs
  unfolding sort
  length-sort [] = refl
  length-sort (x ∷ xs) = length-insert x (sort xs) ∙ ap suc (length-sort xs)

  module _ {κ} (P : A → Type κ) where
    All-insert : (x : A) (ys : List A) → P x → All P ys → All P (insert x ys)
    All-insert x [] h k = (h, tt)
    All-insert x (y ∷ ys) h (k, ks) = ground (arith, All-insert x ys h ks)

    pub All-sort : (xs : List A) → All P xs → All P (sort xs)
    unfolding sort
    All-sort [] h = tt
    All-sort (x ∷ xs) (h, hs) = All-insert x (sort xs) h (All-sort xs hs)

  -- Every row is at or before each of the rows after it.
  abbrev pub IsSorted : List A → Type 0
  IsSorted [] = Unit
  IsSorted (x ∷ xs) = All (λ y. le x y ≡ true) xs × IsSorted xs

  -- Each row of one list is at or before each row of another.
  abbrev pub Precede : List A → List A → Type 0
  Precede [] ys = Unit
  Precede (x ∷ xs) ys = All (λ y. le x y ≡ true) ys × Precede xs ys

  module _ (total : (x y : A) → le x y ≡ false → le y x ≡ true)
      (trans : (x y z : A) → le x y ≡ true → le y z ≡ true → le x z ≡ true) where
    IsSorted-insert : (x : A) (ys : List A) → IsSorted ys → IsSorted (insert x ys)
    IsSorted-insert x [] h = (tt, tt)
    IsSorted-insert x (y ∷ ys) (h, hs) = elim (Bool-cases (le x y)) [
      | inl e ↦ rw e ((e, All-mono _ _ ys (λ z. trans x y z e) h), (h, hs))
      | inr e ↦ rw e (All-insert (λ z. le y z ≡ true) x ys (total x y e) h, IsSorted-insert x ys hs)
    ]

    pub IsSorted-sort : (xs : List A) → IsSorted (sort xs)
    unfolding sort
    IsSorted-sort [] = tt
    IsSorted-sort (x ∷ xs) = IsSorted-insert x (sort xs) (IsSorted-sort xs)

  All-drop {κ} : (P : A → Type κ) (n : ℕ) (xs : List A) → All P xs → All P (drop n xs)
  All-drop P zero xs h = h
  All-drop P (suc n) [] h = tt
  All-drop P (suc n) (x ∷ xs) (h, hs) = All-drop P n xs hs

  -- What a limit keeps comes before what it leaves out.
  pub take-Precede-drop : (n : ℕ) (xs : List A) → IsSorted xs → Precede (take n xs) (drop n xs)
  take-Precede-drop zero xs h = tt
  take-Precede-drop (suc n) [] h = tt
  take-Precede-drop (suc n) (x ∷ xs) (h, hs) = (All-drop _ n xs h, take-Precede-drop n xs hs)

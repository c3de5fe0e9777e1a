-- ===== src/Base/Lists.antt =====
-- Lists as the tables of a database: counting, selecting and updating rows by a test.
use Prim.Native.Nat.{ℕ, zero, suc, ◌+◌, min}
use mathlib.Core.Path.{◌≡◌, refl, ap}
use mathlib.Core.Logic.{inl, inr}
use mathlib.Core.Bool.{Bool, true, false, ◌||◌}
use mathlib.Core.List.{List, [], ◌∷◌, ◌++◌, map}
use native.Mathlib.Omega.{arith}
use ai_email_broadcast_hw.Base.Tests.{◌==◌, if◌then◌else◌, Bool-cases}

module _ {ℓ} {A : Type ℓ} where
  abbrev pub length : List A → ℕ
  length [] = 0
  length (x ∷ xs) = suc (length xs)

  abbrev pub take : ℕ → List A → List A
  take zero xs = []
  take (suc n) [] = []
  take (suc n) (x ∷ xs) = x ∷ take n xs

  abbrev pub drop : ℕ → List A → List A
  drop zero xs = xs
  drop (suc n) [] = []
  drop (suc n) (x ∷ xs) = drop n xs

  pub length-append : (xs ys : List A) → length (xs ++ ys) ≡ length xs + length ys
  length-append [] ys = omega arith
  length-append (x ∷ xs) ys = omega (arith, length-append xs ys)

  pub length-take : (n : ℕ) (xs : List A) → length (take n xs) ≡ min n (length xs)
  length-take zero xs = omega arith
  length-take (suc n) [] = omega arith
  length-take (suc n) (x ∷ xs) = omega (arith, length-take n xs)

  -- `SELECT ... WHERE p`, in the table's order.
  abbrev pub select : (A → Bool) → List A → List A
  select p [] = []
  select p (x ∷ xs) = if p x then x ∷ select p xs else select p xs

  -- `UPDATE ... SET f WHERE p`.
  abbrev pub update_where : (A → Bool) → (A → A) → List A → List A
  update_where p f [] = []
  update_where p f (x ∷ xs) = (if p x then f x else x) ∷ update_where p f xs

  -- `count(*) FILTER (WHERE p)`.
  abbrev pub count_where : (A → Bool) → List A → ℕ
  count_where p [] = 0
  count_where p (x ∷ xs) = if p x then suc (count_where p xs) else count_where p xs

  -- `EXISTS (SELECT 1 ... WHERE p)`.
  abbrev pub any : (A → Bool) → List A → Bool
  any p [] = false
  any p (x ∷ xs) = p x || any p xs

  pub any-append : (p : A → Bool) (xs ys : List A) → any p (xs ++ ys) ≡ (any p xs || any p ys)
  any-append p [] ys = refl
  any-append p (x ∷ xs) ys = ground (arith, any-append p xs ys)

  pub count_where-append :
      (p : A → Bool) (xs ys : List A)
      → count_where p (xs ++ ys) ≡ count_where p xs + count_where p ys
  count_where-append p [] ys = omega arith
  count_where-append p (x ∷ xs) ys = ground (arith, count_where-append p xs ys)

  pub length-select : (p : A → Bool) (xs : List A) → length (select p xs) ≡ count_where p xs
  length-select p [] = refl
  length-select p (x ∷ xs) = ground (arith, length-select p xs)

module _ {ℓ κ} {A : Type ℓ} (P : A → Type κ) where
  abbrev pub All : List A → Type κ
  All [] = Unit
  All (x ∷ xs) = P x × All xs

  pub All-append : (xs ys : List A) → All xs → All ys → All (xs ++ ys)
  All-append [] ys h k = k
  All-append (x ∷ xs) ys (h, hs) k = (h, All-append xs ys hs k)

  pub All-take : (n : ℕ) (xs : List A) → All xs → All (take n xs)
  All-take zero xs h = tt
  All-take (suc n) [] h = tt
  All-take (suc n) (x ∷ xs) (h, hs) = (h, All-take n xs hs)

  pub All-drop : (n : ℕ) (xs : List A) → All xs → All (drop n xs)
  All-drop zero xs h = h
  All-drop (suc n) [] h = tt
  All-drop (suc n) (x ∷ xs) (h, hs) = All-drop n xs hs

  pub All-select : (p : A → Bool) (xs : List A) → All xs → All (select p xs)
  All-select p [] h = tt
  All-select p (x ∷ xs) (h, hs) = ground (arith, All-select p xs hs)

  pub All-update_where :
      (p : A → Bool) (f : A → A) (xs : List A)
      → ((x : A) → p x ≡ true → P x → P (f x))
      → All xs
      → All (update_where p f xs)
  All-update_where p f [] k h = tt
  All-update_where p f (x ∷ xs) k (h, hs) =
      let rest = All-update_where p f xs k hs in
      elim (Bool-cases (p x)) [ inl e ↦ rw e (k x e h, rest) | inr e ↦ rw e (h, rest) ]

module _ {ℓ κ μ} {A : Type ℓ} (P : A → Type κ) (Q : A → Type μ) where
  pub All-mono : (xs : List A) → ((x : A) → P x → Q x) → All P xs → All Q xs
  All-mono [] k h = tt
  All-mono (x ∷ xs) k (h, hs) = (k x h, All-mono xs k hs)

-- What is selected passes the test.
pub All-select_self {ℓ} :
    {A : Type ℓ} (p : A → Bool) (xs : List A) → All (λ x. p x ≡ true) (select p xs)
All-select_self p [] = tt
All-select_self p (x ∷ xs) =
    let rest = All-select_self p xs in
    elim (Bool-cases (p x)) [ inl e ↦ rw e (e, rest) | inr e ↦ rw e rest ]

pub length-map {ℓ κ} :
    {A : Type ℓ} {B : Type κ} (f : A → B) (xs : List A) → length (map f xs) ≡ length xs
length-map f [] = refl
length-map f (x ∷ xs) = ap suc (length-map f xs)

-- `id = ANY(ids)`.
abbrev pub mem_id : ℕ → List ℕ → Bool
mem_id a [] = false
mem_id a (b ∷ bs) = a == b || mem_id a bs

pub data Impossible {ℓ} : Type ℓ where

-- The rows of two tables correspond one to one, in order.
abbrev pub Pointwise {ℓ κ} : {A : Type ℓ} → (A → A → Type κ) → List A → List A → Type κ
Pointwise R [] [] = Unit
Pointwise R [] (y ∷ ys) = Impossible
Pointwise R (x ∷ xs) [] = Impossible
Pointwise R (x ∷ xs) (y ∷ ys) = R x y × Pointwise R xs ys

pub Pointwise-update_where {ℓ κ} :
    {A : Type ℓ} (R : A → A → Type κ) (p : A → Bool) (f : A → A) (xs : List A)
    → ((x : A) → p x ≡ false → R x x)
    → All (λ x. p x ≡ true → R x (f x)) xs
    → Pointwise R xs (update_where p f xs)
Pointwise-update_where R p f [] k h = tt
Pointwise-update_where R p f (x ∷ xs) k (h, hs) =
    let rest = Pointwise-update_where R p f xs k hs in
    elim (Bool-cases (p x)) [ inl e ↦ rw e (h e, rest) | inr e ↦ rw e (k x e, rest) ]

pub Pointwise-mono {ℓ κ μ} :
    {A : Type ℓ} (R : A → A → Type κ) (S : A → A → Type μ) (xs ys : List A)
    → ((x y : A) → R x y → S x y)
    → Pointwise R xs ys
    → Pointwise S xs ys
Pointwise-mono R S [] [] k h = tt
Pointwise-mono R S [] (y ∷ ys) k h = elim h [ ]
Pointwise-mono R S (x ∷ xs) [] k h = elim h [ ]
Pointwise-mono R S (x ∷ xs) (y ∷ ys) k (h, hs) = (k x y h, Pointwise-mono R S xs ys k hs)

-- Two updates in a row, by what they do together to one row.
pub Pointwise-update_twice {ℓ κ} :
    {A : Type ℓ} (R : A → A → Type κ) (p q : A → Bool) (f g : A → A) (xs : List A)
    → ((x : A)
        → R x (
            if q (if p x then f x else x)
            then g (if p x then f x else x)
            else if p x
            then f x
            else x))
    → Pointwise R xs (update_where q g (update_where p f xs))
Pointwise-update_twice R p q f g [] k = tt
Pointwise-update_twice R p q f g (x ∷ xs) k = (k x, Pointwise-update_twice R p q f g xs k)

pub All-of-Pointwise {ℓ κ} :
    {A : Type ℓ} (P : A → Type κ) (xs ys : List A)
    → Pointwise (λ x y. P x → P y) xs ys
    → All P xs
    → All P ys
All-of-Pointwise P [] [] k h = tt
All-of-Pointwise P [] (y ∷ ys) k h = elim k [ ]
All-of-Pointwise P (x ∷ xs) [] k h = tt
All-of-Pointwise P (x ∷ xs) (y ∷ ys) (k, ks) (h, hs) = (k h, All-of-Pointwise P xs ys ks hs)

-- An update whose test no row passes.
pub update_none {ℓ} :
    {A : Type ℓ} (p : A → Bool) (f : A → A) (xs : List A)
    → All (λ x. p x ≡ false) xs
    → update_where p f xs ≡ xs
update_none p f [] h = refl
update_none p f (x ∷ xs) (h, hs) = rw h (ap (◌∷◌ x) (update_none p f xs hs))

pub select_none {ℓ} :
    {A : Type ℓ} (p : A → Bool) (xs : List A) → All (λ x. p x ≡ false) xs → select p xs ≡ []
select_none p [] h = refl
select_none p (x ∷ xs) (h, hs) = rw h (select_none p xs hs)

-- After an update, a test that the new rows fail and the others failed before selects nothing.
pub All-false-update {ℓ} :
    {A : Type ℓ} (p hit : A → Bool) (f : A → A) (xs : List A)
    → ((x : A) → hit x ≡ true → p (f x) ≡ false)
    → All (λ x. hit x ≡ false → p x ≡ false) xs
    → All (λ x. p x ≡ false) (update_where hit f xs)
All-false-update p hit f [] k h = tt
All-false-update p hit f (x ∷ xs) k (h, hs) =
    let rest = All-false-update p hit f xs k hs in
    elim (Bool-cases (hit x)) [ inl e ↦ rw e (k x e, rest) | inr e ↦ rw e (h e, rest) ]

pub All-true {ℓ κ} : {A : Type ℓ} (P : A → Type κ) (xs : List A) → ((x : A) → P x) → All P xs
All-true P [] k = tt
All-true P (x ∷ xs) k = (k x, All-true P xs k)

-- Two facts of each row, put together.
pub All-zip {ℓ κ μ ν} :
    {A : Type ℓ} (P : A → Type κ) (Q : A → Type μ) (R : A → Type ν) (xs : List A)
    → ((x : A) → P x → Q x → R x)
    → All P xs
    → All Q xs
    → All R xs
All-zip P Q R [] k h g = tt
All-zip P Q R (x ∷ xs) k (h, hs) (g, gs) = (k x h g, All-zip P Q R xs k hs gs)

-- What holds of the new rows and of the others, from what held before.
pub All-update_cases {ℓ κ μ} :
    {A : Type ℓ} (P : A → Type κ) (Q : A → Type μ) (hit : A → Bool) (f : A → A) (xs : List A)
    → ((x : A) → hit x ≡ true → P x → Q (f x))
    → ((x : A) → hit x ≡ false → P x → Q x)
    → All P xs
    → All Q (update_where hit f xs)
All-update_cases P Q hit f [] a b h = tt
All-update_cases P Q hit f (x ∷ xs) a b (h, hs) =
    let rest = All-update_cases P Q hit f xs a b hs in
    elim (Bool-cases (hit x)) [ inl e ↦ rw e (a x e h, rest) | inr e ↦ rw e (b x e h, rest) ]

pub All-of_count_zero {ℓ} :
    {A : Type ℓ} (p : A → Bool) (xs : List A) → count_where p xs ≡ 0 → All (λ x. p x ≡ false) xs
All-of_count_zero p [] h = tt
All-of_count_zero p (x ∷ xs) h = (ground arith, All-of_count_zero p xs (ground arith))

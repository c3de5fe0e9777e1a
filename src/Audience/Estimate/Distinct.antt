-- ===== src/Audience/Estimate/Distinct.antt =====
-- How many different texts a list has depends on which texts it has.
use ai_email_broadcast_hw.Base.{
  ℕ, zero, suc, ◌≤◌, ◌≡◌, refl, sym, ap, ◌∙◌, inl, inr, Bool, true, false, not, ◌&&◌, List, [], ◌∷◌,
  Text, arith, if◌then◌else◌, if_both, Bool-cases, any, length, select, text_eq, text_eq→eq,
  text_eq_refl,
}
use ai_email_broadcast_hw.Audience.Estimate.{count_distinct}

abbrev pub has : Text → List Text → Bool
has k ts = any (λ t. text_eq t k) ts

abbrev pub without : Text → List Text → List Text
without k ts = select (λ t. not (text_eq t k)) ts

pub text_eq_trans : (s t k : Text) → text_eq s t ≡ true → text_eq s k ≡ text_eq t k
text_eq_trans s t k e = ap (λ x. text_eq x k) (text_eq→eq s t e)

has_same : (j k : Text) (ts : List Text) → text_eq j k ≡ true → has j ts ≡ has k ts
has_same j k ts e = ap (λ x. has x ts) (text_eq→eq j k e)

has-without : (j k : Text) (ts : List Text) → has j (without k ts) ≡ (has j ts && not (text_eq j k))
has-without j k [] = refl
has-without j k (t ∷ ts) = elim (Bool-cases (text_eq t k)) [
  | inl e ↦ elim (Bool-cases (text_eq t j)) [
    | inl f ↦ ground (arith, has-without j k ts, e, f, text_eq_trans t j k f)
    | inr f ↦ ground (arith, has-without j k ts, e, f)
  ]
  | inr e ↦ elim (Bool-cases (text_eq t j)) [
    | inl f ↦ ground (arith, has-without j k ts, e, f, text_eq_trans t j k f)
    | inr f ↦ ground (arith, has-without j k ts, e, f)
  ]
]

-- One text, wherever it stands, counts once.
count_distinct-without :
    (k : Text) (ts : List Text)
    → count_distinct ts
      ≡ (if has k ts then suc (count_distinct (without k ts)) else count_distinct (without k ts))
unfolding count_distinct
count_distinct-without k [] = refl
count_distinct-without k (t ∷ ts) = elim (Bool-cases (text_eq t k)) [
  | inl e ↦ ground (arith, count_distinct-without k ts, e, has_same t k ts e)
  | inr e ↦ ground (arith, count_distinct-without k ts, e, has-without t k ts)
]

length-without : (k : Text) (ts : List Text) → length (without k ts) ≤ length ts
length-without k [] = omega arith
length-without k (t ∷ ts) = ground (arith, length-without k ts)

count_distinct-has :
    (k : Text) (ts : List Text)
    → has k ts ≡ true
    → count_distinct ts ≡ suc (count_distinct (without k ts))
count_distinct-has k ts h = ground (arith, count_distinct-without k ts, h)

-- Lists of the same texts, in whatever order and however often, have as many different ones.
pub count_distinct_same :
    (n : ℕ) (xs ys : List Text)
    → length xs ≤ n
    → ((k : Text) → has k xs ≡ has k ys)
    → count_distinct xs ≡ count_distinct ys
count_distinct_same n [] [] h e = refl
count_distinct_same n [] (y ∷ ys) h e = absurd (ground (arith, e y, text_eq_refl y))
count_distinct_same zero (x ∷ xs) ys h e = absurd (omega (arith, h))
count_distinct_same (suc n) (x ∷ xs) ys h e =
    let here : has x (x ∷ xs) ≡ true = ground (arith, text_eq_refl x) in
    let smaller : length (without x (x ∷ xs)) ≤ n =
      ground (arith, h, text_eq_refl x, length-without x xs) in
    count_distinct-has x (x ∷ xs) here
    ∙ ap suc (
        count_distinct_same n (without x (x ∷ xs)) (without x ys) smaller (λ k.
          has-without k x (x ∷ xs)
          ∙ ap (λ b. b && not (text_eq k x)) (e k)
          ∙ sym (has-without k x ys)))
    ∙ sym (count_distinct-has x ys (sym (e x) ∙ here))

-- In a list where no text stands twice, each one counts.
abbrev pub AllDistinct : List Text → Type 0
AllDistinct [] = Unit
AllDistinct (t ∷ ts) = (has t ts ≡ false) × AllDistinct ts

pub count_distinct-AllDistinct : (ts : List Text) → AllDistinct ts → count_distinct ts ≡ length ts
unfolding count_distinct
count_distinct-AllDistinct [] d = refl
count_distinct-AllDistinct (t ∷ ts) (d, ds) = ground (arith, d, count_distinct-AllDistinct ts ds)

-- What a test of the texts keeps.
pub has-select :
    (p : Text → Bool) (k : Text) (ts : List Text) → has k (select p ts) ≡ (has k ts && p k)
has-select p k [] = refl
has-select p k (t ∷ ts) = elim (Bool-cases (text_eq t k)) [
  | inl e ↦ ground (arith, has-select p k ts, e, ap p (text_eq→eq t k e))
  | inr e ↦ ground (arith, has-select p k ts, e)
]

pub AllDistinct-select :
    (p : Text → Bool) (ts : List Text) → AllDistinct ts → AllDistinct (select p ts)
AllDistinct-select p [] d = tt
AllDistinct-select p (t ∷ ts) (d, ds) =
    if_both AllDistinct (p t) (ground (arith, d, has-select p t ts), AllDistinct-select p ts ds)
      (AllDistinct-select p ts ds)

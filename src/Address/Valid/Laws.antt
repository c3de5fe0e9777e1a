-- ===== src/Address/Valid/Laws.antt =====
-- What an address that `isValidEmail` accepts is made of.
use ai_email_broadcast_hw.Base.{
  ℕ, suc, ◌≤◌, ◌≡◌, refl, sym, subst, ◌∙◌, ◌≢◌, Bool, true, false, ◌||◌, List, [], ◌∷◌, arith, Text,
  ◌==◌, if◌then◌else◌, length, All, count_where,
}
use ai_email_broadcast_hw.Address.{trim}
use ai_email_broadcast_hw.Address.Valid.{
  every, is_letter, is_alphanumeric, is_atext, prepend, split_at, is_local_part, is_label,
  is_top_level, is_domain, matches_address, is_valid_value, is_valid_email,
}

-- A printing character that is no quote, separator, bracket or backslash of a mail header.
unfoldable pub IsGraphic : ℕ → Type 0
IsGraphic c =
    (33 ≤ c)
    × (c ≤ 126)
    × (c ≢ 34)
    × (c ≢ 40)
    × (c ≢ 41)
    × (c ≢ 44)
    × (c ≢ 58)
    × (c ≢ 59)
    × (c ≢ 60)
    × (c ≢ 62)
    × (c ≢ 92)

is_atext-IsGraphic : (c : ℕ) → is_atext c ≡ true → IsGraphic c
unfolding is_atext IsGraphic
is_atext-IsGraphic c h = ground arith

label_character-IsGraphic : (c : ℕ) → (is_alphanumeric c || c == b'-') ≡ true → IsGraphic c
unfolding IsGraphic
label_character-IsGraphic c h = ground arith

letter-IsGraphic : (c : ℕ) → is_letter c ≡ true → IsGraphic c
unfolding IsGraphic
letter-IsGraphic c h = ground arith

eq_of : (a b : ℕ) → (a == b) ≡ true → a ≡ b
eq_of a b h = ground arith

module _ {κ} (P : ℕ → Type κ) where
  every-All : (p : ℕ → Bool) (t : Text) → ((c : ℕ) → p c ≡ true → P c) → every p t ≡ true → All P t
  every-All p [] k h = tt
  every-All p (c ∷ cs) k h = (k c (ground arith), every-All p cs k (ground arith))

  prepend-All :
      (b : Bool) (c : ℕ) (cs : Text) (parts : List Text)
      → (b ≡ true → P c)
      → (All (All P) parts → All P cs)
      → All (All P) (prepend b c parts)
      → All P (c ∷ cs)
  prepend-All true c cs parts d k (h, hs) = (d refl, k hs)
  prepend-All false c cs [] d k ((h, g), hs) = (h, k tt)
  prepend-All false c cs (p ∷ parts) d k ((h, g), hs) = (h, k (g, hs))

  split_at-All : (d : ℕ) (t : Text) → P d → All (All P) (split_at d t) → All P t
  unfolding split_at
  split_at-All d [] hd h = tt
  split_at-All d (c ∷ cs) hd h =
      prepend-All (c == d) c cs (split_at d cs) (λ e. subst P (sym (eq_of c d e)) hd)
        (split_at-All d cs hd) h

length-prepend :
    (b : Bool) (c : ℕ) (parts : List Text)
    → 1 ≤ length parts
    → length (prepend b c parts) ≡ (if b then suc (length parts) else length parts)
length-prepend true c parts h = refl
length-prepend false c [] h = omega arith
length-prepend false c (p ∷ parts) h = refl

length-split_at : (d : ℕ) (t : Text) → length (split_at d t) ≡ suc (count_where (λ c. c == d) t)
unfolding split_at
length-split_at d [] = refl
length-split_at d (c ∷ cs) =
    let rest = length-split_at d cs in
    length-prepend (c == d) c (split_at d cs) (ground (arith, rest)) ∙ ground (arith, rest)

local_part-IsGraphic : (parts : List Text) → is_local_part parts ≡ true → All (All IsGraphic) parts
unfolding is_local_part
local_part-IsGraphic [] h = tt
local_part-IsGraphic (p ∷ parts) h = (
  every-All IsGraphic is_atext p is_atext-IsGraphic (ground arith),
  local_part-IsGraphic parts (ground arith),
)

label-IsGraphic : (p : Text) → is_label p ≡ true → All IsGraphic p
unfolding is_label
label-IsGraphic p h =
    every-All IsGraphic (λ c. is_alphanumeric c || c == b'-') p label_character-IsGraphic
      (ground arith)

top_level-IsGraphic : (p : Text) → is_top_level p ≡ true → All IsGraphic p
unfolding is_top_level
top_level-IsGraphic p h = every-All IsGraphic is_letter p letter-IsGraphic (ground arith)

domain-IsGraphic : (parts : List Text) → is_domain parts ≡ true → All (All IsGraphic) parts
unfolding is_domain
domain-IsGraphic [] h = tt
domain-IsGraphic (p ∷ []) h = ground arith
domain-IsGraphic (p ∷ q ∷ []) h =
    (label-IsGraphic p (ground arith), (top_level-IsGraphic q (ground arith), tt))
domain-IsGraphic (p ∷ q ∷ r ∷ parts) h =
    (label-IsGraphic p (ground arith), domain-IsGraphic (q ∷ r ∷ parts) (ground arith))

dot-IsGraphic : IsGraphic b'.'
unfolding IsGraphic
dot-IsGraphic = ground arith

at-IsGraphic : IsGraphic b'@'
unfolding IsGraphic
at-IsGraphic = ground arith

-- Two parts, and nothing in them that a header could read otherwise.
matches_address-IsGraphic :
    (parts : List Text)
    → matches_address parts ≡ true
    → (length parts ≡ 2) × All (All IsGraphic) parts
unfolding matches_address
matches_address-IsGraphic [] h = ground arith
matches_address-IsGraphic (p ∷ []) h = ground arith
matches_address-IsGraphic (p ∷ q ∷ []) h =
    let left = local_part-IsGraphic (split_at b'.' p) (ground arith) in
    let right = domain-IsGraphic (split_at b'.' q) (ground arith) in
    (
      refl,
      (
        split_at-All IsGraphic b'.' p dot-IsGraphic left,
        (split_at-All IsGraphic b'.' q dot-IsGraphic right, tt),
      ),
    )
matches_address-IsGraphic (p ∷ q ∷ r ∷ parts) h = ground arith

accepted :
    (v : Text)
    → is_valid_value v ≡ true
    → (length v ≤ 254) × (matches_address (split_at b'@' v) ≡ true)
unfolding is_valid_value
accepted v h = ground arith

-- At most 254 characters, one `@`, and graphic throughout.
unfoldable pub IsHarmless : Text → Type 0
unfolding IsGraphic
IsHarmless v = (length v ≤ 254) × (count_where (λ c. c == b'@') v ≡ 1) × All IsGraphic v

-- An address that `isValidEmail` accepts, trimmed, has at most 254 characters, exactly one `@`, and
-- no character that is white space, a control or beyond ASCII, nor a quote, a parenthesis, a comma,
-- a colon, a semicolon, an angle bracket or a backslash: put into a mail header, it cannot start
-- another address or another header.
pub is_valid_email-IsHarmless : (t : Text) → is_valid_email t ≡ true → IsHarmless (trim t)
unfolding is_valid_email IsHarmless
is_valid_email-IsHarmless t h =
    let (short, match) = accepted (trim t) h in
    let (two, parts) = matches_address-IsGraphic (split_at b'@' (trim t)) match in
    (
      short,
      omega (arith, two, length-split_at b'@' (trim t)),
      split_at-All IsGraphic b'@' (trim t) at-IsGraphic parts,
    )

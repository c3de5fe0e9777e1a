-- ===== src/Address/Valid.antt =====
-- `isValidEmail` of src/lib/email-address.ts. The regular expression is read off part by part: the
-- characters before and after the one `@`, cut at the dots, which no part can hold.
pub mod Laws
mod Tests
use ai_email_broadcast_hw.Base.{
  ℕ, zero, suc, ◌+◌, ◌≤◌, ◌<◌, ◌≡◌, refl, ◌∙◌, inl, inr, Bool, true, false, not, ◌&&◌, ◌||◌, Option,
  none, some, List, [], ◌∷◌, ◌++◌, arith, Text, ltb, leb, ◌==◌, if◌then◌else◌, if_cases, length,
  any, All, All-append, All-mono, Bool-cases,
}
use ai_email_broadcast_hw.Address.{trim}

abbrev pub every : (ℕ → Bool) → Text → Bool
every p [] = true
every p (c ∷ cs) = p c && every p cs

abbrev pub is_letter : ℕ → Bool
is_letter c = (leb b'A' c && leb c b'Z') || (leb b'a' c && leb c b'z')

abbrev pub is_digit : ℕ → Bool
is_digit c = leb b'0' c && leb c b'9'

abbrev pub is_alphanumeric : ℕ → Bool
is_alphanumeric c = is_letter c || is_digit c

-- !#$%&'*+/=?^_`{|}~- and the letters and digits.
unfoldable pub is_atext : ℕ → Bool
is_atext c =
    is_alphanumeric c
    || (c == 33
        || ((leb 35 c && leb c 39)
            || (c == 42
                || (c == 43
                    || (c == 45
                        || (c == 47
                            || (c == 61
                                || (c == 63
                                    || ((leb 94 c && leb c 96) || (leb 123 c && leb c 126))))))))))

abbrev pub prepend : Bool → ℕ → List Text → List Text
prepend true c parts = [] ∷ parts
prepend false c [] = (c ∷ []) ∷ []
prepend false c (p ∷ parts) = (c ∷ p) ∷ parts

-- The pieces between the occurrences of a character; there is always one.
unfoldable pub split_at : ℕ → Text → List Text
split_at d [] = [] ∷ []
split_at d (c ∷ cs) = prepend (c == d) c (split_at d cs)

abbrev pub is_nonempty : Text → Bool
is_nonempty [] = false
is_nonempty (c ∷ cs) = true

-- [atext]+(\.[atext]+)*
unfoldable pub is_local_part : List Text → Bool
unfolding is_atext
is_local_part [] = true
is_local_part (p ∷ parts) = is_nonempty p && every is_atext p && is_local_part parts

abbrev pub ends_well : Text → Bool
ends_well [] = false
ends_well (c ∷ []) = is_alphanumeric c
ends_well (c ∷ d ∷ cs) = ends_well (d ∷ cs)

abbrev pub starts_well : Text → Bool
starts_well [] = false
starts_well (c ∷ cs) = is_alphanumeric c

-- [A-Za-z0-9](?:[A-Za-z0-9-]{0,61}[A-Za-z0-9])?
unfoldable pub is_label : Text → Bool
is_label t =
    starts_well t
    && ends_well t
    && every (λ c. is_alphanumeric c || c == b'-') t
    && leb (length t) 63

-- [A-Za-z]{2,63}
unfoldable pub is_top_level : Text → Bool
is_top_level t = every is_letter t && leb 2 (length t) && leb (length t) 63

-- One label or more, each with its dot, and the top level.
unfoldable pub is_domain : List Text → Bool
unfolding is_label is_top_level
is_domain [] = false
is_domain (p ∷ []) = false
is_domain (p ∷ q ∷ []) = is_label p && is_top_level q
is_domain (p ∷ q ∷ r ∷ parts) = is_label p && is_domain (q ∷ r ∷ parts)

unfoldable pub matches_address : List Text → Bool
unfolding is_local_part is_domain split_at
matches_address (local ∷ domain ∷ []) =
    is_local_part (split_at b'.' local) && is_domain (split_at b'.' domain)
matches_address _ = false

-- `lastIndexOf`, if there is one.
unfoldable pub last_index_of : ℕ → Text → Option ℕ
last_index_of d [] = none
last_index_of d (c ∷ cs) = elim (last_index_of d cs) [
  | some i ↦ some (suc i)
  | none ↦ if c == d then some 0 else none
]

-- The value has been trimmed; `slice(0, at).length` is `at`.
unfoldable pub is_valid_value : Text → Bool
unfolding matches_address split_at last_index_of
is_valid_value v =
    if length v == 0 || ltb 254 (length v) then false else elim (last_index_of b'@' v) [
      | none ↦ false
      | some at ↦
          if ltb at 1 then false else if ltb 64 at then false else matches_address (split_at b'@' v)
    ]

unfoldable pub is_valid_email : Text → Bool
unfolding is_valid_value
is_valid_email t = is_valid_value (trim t)

-- ===== src/Schedule/Digits.antt =====
-- Digits: `\d{n}` and `Number` on them, `String(n).padStart`, and the fields `YYYY-MM-DD` and `HH:mm`.
pub mod Laws
use ai_email_broadcast_hw.Base.{
  ℕ, zero, suc, ◌+◌, ◌-◌, ◌*◌, ◌/◌, ◌%◌, Bool, true, false, ◌&&◌, Option, none, some, List, [], ◌∷◌,
  ◌++◌, Text, leb, ◌==◌, if◌then◌else◌,
}
use ai_email_broadcast_hw.Address.Valid.{is_digit}

infixl 5 ◌>>=◌
abbrev pub ◌>>=◌ : {A B : Type 0} → Option A → (A → Option B) → Option B
none >>= f = none
some a >>= f = f a

-- `n` digits at the start of the text: their value, after the digits before them, and the rest.
unfoldable pub digits_from : ℕ → ℕ → Text → Option (ℕ × Text)
digits_from value zero t = some (value, t)
digits_from value (suc n) [] = none
digits_from value (suc n) (c ∷ cs) =
    let rest = digits_from (value * 10 + (c - b'0')) n cs in if is_digit c then rest else none

abbrev pub digits : ℕ → Text → Option (ℕ × Text)
digits n t = digits_from 0 n t

abbrev pub literal : ℕ → Text → Option Text
literal d [] = none
literal d (c ∷ cs) = if c == d then some cs else none

abbrev pub at_end : {A : Type 0} → A → Text → Option A
at_end a [] = some a
at_end a (c ∷ cs) = none

-- `String(v).padStart(n, "0")`, for a number of at most `n` digits.
unfoldable pub print_digits : ℕ → ℕ → Text
print_digits zero v = []
print_digits (suc n) v = print_digits n (v / 10) ++ (b'0' + v % 10) ∷ []

-- /^(\d{4})-(\d{2})-(\d{2})$/
unfoldable pub read_date : Text → Option (ℕ × ℕ × ℕ)
unfolding digits_from
read_date t = do
  (year, a) ← digits 4 t
  b ← literal b'-' a
  (month, c) ← digits 2 b
  d ← literal b'-' c
  (day, e) ← digits 2 d
  at_end (year, month, day) e

-- /^(\d{2}):(\d{2})$/
unfoldable pub read_time : Text → Option (ℕ × ℕ)
unfolding digits_from
read_time t = do
  (hour, a) ← digits 2 t
  b ← literal b':' a
  (minute, c) ← digits 2 b
  at_end (hour, minute) c

unfoldable pub print_date : ℕ → ℕ → ℕ → Text
unfolding print_digits
print_date year month day =
    print_digits 4 year ++ b'-' ∷ (print_digits 2 month ++ b'-' ∷ print_digits 2 day)

unfoldable pub print_time : ℕ → ℕ → Text
unfolding print_digits
print_time hour minute = print_digits 2 hour ++ b':' ∷ print_digits 2 minute

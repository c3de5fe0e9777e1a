-- ===== src/Input.antt =====
-- The input helpers of src/lib/api.ts. A value of a request's body is JSON's; an array comes as the
-- texts that `String` makes of its elements.
pub mod Laws
use ai_email_broadcast_hw.Base.{
  ℕ, zero, suc, ◌+◌, ◌*◌, Bool, true, false, not, ◌&&◌, ◌||◌, Option, none, some, List, [], ◌∷◌,
  Text, ◌==◌, ltb, leb, if◌then◌else◌, any, length, text_eq, select,
}
use ai_email_broadcast_hw.Address.{trim}
use ai_email_broadcast_hw.Audience.{is_empty}
use ai_email_broadcast_hw.Api.{Response, ok, refused, bad_request}

pub data Value : Type 0 where
  undefined null other : Value
  text : Text → Value

infixl 5 ◌>>=◌
abbrev pub ◌>>=◌ : {A B : Type 0} → Response A → (A → Response B) → Response B
ok a >>= f = f a
refused code key >>= f = refused code key

-- A text that is within the limit.
abbrev pub within : ℕ → Bool → Text → Response Text
within max required t =
    if required && is_empty t
    then bad_request "err.field.required"
    else if ltb max (length t)
    then bad_request "err.field.tooLong"
    else ok t

unfoldable pub str : ℕ → Bool → Value → Response Text
unfolding trim is_empty
str max required undefined = if required then bad_request "err.field.string" else ok []
str max required null = if required then bad_request "err.field.string" else ok []
str max required other = bad_request "err.field.string"
str max required (text t) = within max required (trim t)

abbrev pub present : {A : Type 0} → Response A → Response (Option A)
present (ok a) = ok (some a)
present (refused code key) = refused code key

unfoldable pub optional_str : ℕ → Value → Response (Option Text)
unfolding str
optional_str max undefined = ok none
optional_str max null = ok none
optional_str max other = present (str max true other)
optional_str max (text []) = ok none
optional_str max (text (c ∷ cs)) = present (str max true (text (c ∷ cs)))

-- [0-9a-f], with the flag i.
unfoldable pub is_hex : ℕ → Bool
is_hex c = (leb 48 c && leb c 57) || ((leb 97 c && leb c 102) || (leb 65 c && leb c 70))

-- `n` of them, and what comes behind.
unfoldable pub hex_digits : ℕ → Text → Option Text
unfolding is_hex
hex_digits zero t = some t
hex_digits (suc n) [] = none
hex_digits (suc n) (c ∷ cs) = let rest = hex_digits n cs in if is_hex c then rest else none

abbrev pub dash : Option Text → Option Text
dash none = none
dash (some []) = none
dash (some (c ∷ cs)) = if c == b'-' then some cs else none

abbrev pub hex_next : ℕ → Option Text → Option Text
hex_next n none = none
hex_next n (some t) = hex_digits n t

abbrev pub is_end : Option Text → Bool
is_end none = false
is_end (some []) = true
is_end (some (c ∷ cs)) = false

unfoldable pub is_uuid : Text → Bool
unfolding hex_digits
is_uuid t = is_end (
    hex_next 12 (dash (hex_next 4 (dash (hex_next 4 (dash (hex_next 4 (dash (hex_digits 8 t)))))))))

pub data ListValue : Type 0 where
  absent no_array : ListValue
  array : List Text → ListValue

-- `[...new Set(ids)]`.
unfoldable pub each_once : List Text → List Text
each_once [] = []
each_once (t ∷ ts) = t ∷ select (λ u. not (text_eq u t)) (each_once ts)

unfoldable pub uuid_list : ListValue → Response (List Text)
unfolding is_uuid each_once
uuid_list absent = bad_request "err.field.array"
uuid_list no_array = bad_request "err.field.array"
uuid_list (array ids) =
    if any (λ t. not (is_uuid t)) ids then bad_request "err.field.badId" else ok (each_once ids)

-- ===== src/Login.antt =====
-- The brake on guessing passwords, src/lib/login-throttle.ts. The process's map is the list of its
-- entries in insertion order; times are in milliseconds.
pub mod Bounds
pub mod Refusal
pub mod Guesses
mod Tests
use ai_email_broadcast_hw.Base.{
  ℕ, suc, ◌+◌, ◌-◌, Bool, true, false, not, ◌&&◌, Option, none, some, List, [], ◌∷◌, ◌++◌, Text,
  ltb, leb, ◌==◌, if◌then◌else◌, select, update_where, length, take, text_eq,
}
use ai_email_broadcast_hw.Address.{trim, normalize_email}
use ai_email_broadcast_hw.Address.Valid.{split_at}

abbrev pub window_ms : ℕ
window_ms = 600000

abbrev pub max_failures_per_account : ℕ
max_failures_per_account = 8

abbrev pub max_failures_per_address : ℕ
max_failures_per_address = 30

abbrev pub max_keys : ℕ
max_keys = 5000

pub record Entry : Type 0 where
  pub key : Text
  pub failures : ℕ
  pub window_started_at : ℕ

-- `Map.get`.
unfoldable pub get : Text → List Entry → Option Entry
get k [] = none
get k (x ∷ xs) = if text_eq x.key k then some x else get k xs

-- `Map.delete`.
abbrev pub delete : Text → List Entry → List Entry
delete k xs = select (λ (x : Entry). not (text_eq x.key k)) xs

-- "account:"
abbrev pub account_prefix : Text
account_prefix = b'a' ∷ b'c' ∷ b'c' ∷ b'o' ∷ b'u' ∷ b'n' ∷ b't' ∷ b':' ∷ []

-- "address:"
abbrev pub address_prefix : Text
address_prefix = b'a' ∷ b'd' ∷ b'd' ∷ b'r' ∷ b'e' ∷ b's' ∷ b's' ∷ b':' ∷ []

abbrev pub unknown : Text
unknown = b'u' ∷ b'n' ∷ b'k' ∷ b'n' ∷ b'o' ∷ b'w' ∷ b'n' ∷ []

-- `a || b` on texts.
abbrev pub or_else : Text → Text → Text
or_else [] t = t
or_else (c ∷ cs) t = c ∷ cs

unfoldable pub account_key : (Text → Text) → Text → Text
account_key lower email = account_prefix ++ take 254 (normalize_email lower email)

unfoldable pub address_key : Text → Text
address_key address = address_prefix ++ or_else (take 64 (trim address)) unknown

-- A time before the window's start is a negative difference, which is within it, as 0 is.
abbrev pub is_over : ℕ → Entry → Bool
is_over now x = leb window_ms (now - x.window_started_at)

abbrev pub live_in : Text → ℕ → List Entry → Option Entry → Option Entry × List Entry
live_in k now m none = (none, m)
live_in k now m (some x) = if is_over now x then (none, delete k m) else (some x, m)

-- The entry that still counts, and the map, from which one that is over has been deleted.
unfoldable pub live : Text → ℕ → List Entry → Option Entry × List Entry
unfolding get
live k now m = live_in k now m (get k m)

abbrev pub failures_of : Option Entry → ℕ
failures_of none = 0
failures_of (some x) = x.failures

-- The second key is looked up only where the first test passes.
unfoldable pub login_allowed : (Text → Text) → Text → Text → ℕ → List Entry → Bool × List Entry
unfolding live account_key address_key
login_allowed lower email address now m =
    let (entry, m1) = live (account_key lower email) now m in
    if ltb (failures_of entry) max_failures_per_account
    then (let (other, m2) = live (address_key address) now m1 in
        (ltb (failures_of other) max_failures_per_address, m2))
    else (false, m1)

abbrev pub bump : Text → List Entry → List Entry
bump k m =
    update_where (λ (x : Entry). text_eq x.key k)
      (λ (x : Entry). record x { failures = suc x.failures }) m

-- Room for one more: the first key goes when there is none.
unfoldable pub make_room : List Entry → List Entry
make_room [] = []
make_room (x ∷ xs) = if leb max_keys (length (x ∷ xs)) then delete x.key (x ∷ xs) else x ∷ xs

abbrev pub fresh : Text → ℕ → Entry
fresh k now = record { key = k; failures = 1; window_started_at = now }

abbrev pub count_live : Text → ℕ → Option Entry × List Entry → List Entry
count_live k now (some x, m) = bump k m
count_live k now (none, m) = make_room m ++ fresh k now ∷ []

unfoldable pub count : Text → ℕ → List Entry → List Entry
unfolding live make_room
count k now m = count_live k now (live k now m)

unfoldable pub record_login_failure : (Text → Text) → Text → Text → ℕ → List Entry → List Entry
unfolding count account_key address_key
record_login_failure lower email address now m =
    count (address_key address) now (count (account_key lower email) now m)

unfoldable pub record_login_success : (Text → Text) → Text → List Entry → List Entry
unfolding account_key
record_login_success lower email m = delete (account_key lower email) m

abbrev pub first_part : List Text → Text
first_part [] = []
first_part (t ∷ ts) = t

abbrev pub header : Option Text → Text
header none = []
header (some t) = t

-- The headers `x-forwarded-for` and `x-real-ip`.
unfoldable pub caller_address : Option Text → Option Text → Text
unfolding split_at
caller_address forwarded real =
    or_else (trim (first_part (split_at b',' (header forwarded))))
      (or_else (trim (header real)) unknown)

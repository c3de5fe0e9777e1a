-- ===== src/Address/Valid/Tests.antt =====
-- Addresses that are accepted, and some that are not.
use ai_email_broadcast_hw.Base.{◌≡◌, refl, true, false, [], ◌∷◌, Text}
use ai_email_broadcast_hw.Address.{trim}
use ai_email_broadcast_hw.Address.Valid.{is_valid_email}
use ai_email_broadcast_hw.Address.Valid.Laws.{IsHarmless, is_valid_email-IsHarmless}

-- " a.b+c@mail.x-y.org "
abbrev tagged : Text
tagged =
    32 ∷ b'a' ∷ b'.' ∷ b'b' ∷ b'+' ∷ b'c' ∷ b'@' ∷ b'm' ∷ b'.' ∷ b'x' ∷ b'-' ∷ b'y' ∷ b'.' ∷ b'o'
    ∷ b'r' ∷ b'g' ∷ 32 ∷ []

tagged_accepted : is_valid_email tagged ≡ true
unfolding is_valid_email trim
tagged_accepted = refl

-- "a@b@c.org", "a@org", ".a@b.org" and "a@-b.org".
two_signs_refused :
    is_valid_email (b'a' ∷ b'@' ∷ b'b' ∷ b'@' ∷ b'c' ∷ b'.' ∷ b'o' ∷ b'r' ∷ b'g' ∷ []) ≡ false
unfolding is_valid_email trim
two_signs_refused = refl

no_dot_refused : is_valid_email (b'a' ∷ b'@' ∷ b'o' ∷ b'r' ∷ b'g' ∷ []) ≡ false
unfolding is_valid_email trim
no_dot_refused = refl

leading_dot_refused :
    is_valid_email (b'.' ∷ b'a' ∷ b'@' ∷ b'b' ∷ b'.' ∷ b'o' ∷ b'r' ∷ b'g' ∷ []) ≡ false
unfolding is_valid_email trim
leading_dot_refused = refl

leading_dash_refused :
    is_valid_email (b'a' ∷ b'@' ∷ b'-' ∷ b'b' ∷ b'.' ∷ b'o' ∷ b'r' ∷ b'g' ∷ []) ≡ false
unfolding is_valid_email trim
leading_dash_refused = refl

is_valid_email-IsHarmless_example : IsHarmless (trim tagged)
is_valid_email-IsHarmless_example = is_valid_email-IsHarmless tagged tagged_accepted

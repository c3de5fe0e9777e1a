-- ===== src/Login/Tests.antt =====
-- Eight failures, from two addresses, and what is asked after them.
use ai_email_broadcast_hw.Base.{
  ◌≡◌, refl, arith, true, false, none, some, List, [], ◌∷◌, Text, All, count_where, text_eq,
}
use ai_email_broadcast_hw.Address.{lower_ascii, trim, normalize_email}
use ai_email_broadcast_hw.Samples.{ann, ann_again, bob}
use ai_email_broadcast_hw.Login.{
  Entry, get, login_allowed, record_login_failure, caller_address, account_key,
}
use ai_email_broadcast_hw.Login.Bounds.{Event, run, run-IsBounded, IsBounded}
use ai_email_broadcast_hw.Login.Guesses.{guesses_refused, IsWithin, is_guess, is_own}

abbrev office : Text
office = b'o' ∷ []

abbrev guesses : List Event
guesses =
    Event.failed ann office 10
    ∷ Event.failed ann_again bob 20
    ∷ Event.asked ann office 25
    ∷ Event.failed ann office 30
    ∷ Event.failed ann office 40
    ∷ Event.succeeded bob
    ∷ Event.failed ann office 50
    ∷ Event.failed ann office 60
    ∷ Event.failed ann office 70
    ∷ []

abbrev after_guesses : List Entry
after_guesses = run lower_ascii guesses (record_login_failure lower_ascii ann office 0 [])

allowed_after_the_window : (login_allowed lower_ascii ann bob 600000 after_guesses).0 ≡ true
unfolding login_allowed run account_key text_eq normalize_email lower_ascii
allowed_after_the_window = refl

first_of_two : caller_address (some (b'a' ∷ b',' ∷ b'b' ∷ [])) none ≡ b'a' ∷ []
unfolding caller_address trim
first_of_two = refl

bob_is_other : is_own lower_ascii ann bob ≡ false
unfolding is_own account_key text_eq normalize_email lower_ascii trim
bob_is_other = refl

guesses-IsWithin : All (IsWithin lower_ascii ann 0) guesses
unfolding IsWithin
guesses-IsWithin = (
  omega arith,
  (
    omega arith,
    (
      omega arith,
      (omega arith, (omega arith, (bob_is_other, (omega arith, (omega arith, (omega arith, tt)))))),
    ),
  ),
)

guesses_counted : count_where (is_guess lower_ascii ann) guesses ≡ 7
unfolding is_guess account_key text_eq normalize_email lower_ascii trim
guesses_counted = refl

guesses_refused_example : (login_allowed lower_ascii ann bob 599999 after_guesses).0 ≡ false
unfolding get
guesses_refused_example =
    guesses_refused lower_ascii ann 0 599999 office bob guesses [] refl guesses-IsWithin
      (omega (arith, guesses_counted)) (omega arith) (omega arith)

run-IsBounded_example : IsBounded (run lower_ascii guesses [])
run-IsBounded_example = run-IsBounded lower_ascii guesses [] (omega arith)

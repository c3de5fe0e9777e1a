-- ===== src/Schedule/Digits/Laws.antt =====
-- What is printed is read back.
use ai_email_broadcast_hw.Base.{
  ℕ, ◌+◌, ◌/◌, ◌%◌, ◌<◌, ◌≡◌, refl, ap, true, some, [], ◌++◌, Text, arith,
}
use ai_email_broadcast_hw.Address.Valid.{is_digit}
use ai_email_broadcast_hw.Schedule.Digits.{
  digits_from, digits, print_digits, read_date, read_time, print_date, print_time,
}

pub is_digit-printed : (v : ℕ) → is_digit (48 + v % 10) ≡ true
is_digit-printed v = ground arith

pub digits_two :
    (v : ℕ) (rest : Text) → v < 100 → digits 2 (print_digits 2 v ++ rest) ≡ some (v, rest)
unfolding digits_from print_digits
digits_two v rest h =
    rw (is_digit-printed (v / 10), is_digit-printed v) (ap (λ n. some (n, rest)) (omega (arith, h)))

pub digits_two_end : (v : ℕ) → v < 100 → digits 2 (print_digits 2 v) ≡ some (v, [])
unfolding digits_from print_digits
digits_two_end v h =
    rw (is_digit-printed (v / 10), is_digit-printed v) (ap (λ n. some (n, [])) (omega (arith, h)))

pub digits_four :
    (v : ℕ) (rest : Text) → v < 10000 → digits 4 (print_digits 4 v ++ rest) ≡ some (v, rest)
unfolding digits_from print_digits
digits_four v rest h =
    rw
      (
        is_digit-printed (v / 10 / 10 / 10),
        is_digit-printed (v / 10 / 10),
        is_digit-printed (v / 10),
        is_digit-printed v,
      )
      (ap (λ n. some (n, rest)) (omega (arith, h)))

pub read_date-print_date :
    (y m d : ℕ) → y < 10000 → m < 100 → d < 100 → read_date (print_date y m d) ≡ some (y, m, d)
unfolding read_date print_date
read_date-print_date y m d a b c = rw (digits_four y _ a, digits_two m _ b, digits_two_end d c) refl

pub read_time-print_time : (h m : ℕ) → h < 100 → m < 100 → read_time (print_time h m) ≡ some (h, m)
unfolding read_time print_time
read_time-print_time h m a b = rw (digits_two h _ a, digits_two_end m b) refl

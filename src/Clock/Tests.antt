-- ===== src/Clock/Tests.antt =====
-- A tester sets the clock to noon of a day of 2027, as read in UTC, advances it by an hour, and asks
-- for more than it may show.
use ai_email_broadcast_hw.Base.{ℕ, ◌+◌, ◌*◌, ◌-◌, ◌/◌, ◌≡◌, refl, true, none, some, List, [], ◌∷◌}
use ai_email_broadcast_hw.Base.Sort.{sort}
use ai_email_broadcast_hw.Schedule.Calendar.{WallClock}
use ai_email_broadcast_hw.Schedule.Digits.{print_date, print_time}
use ai_email_broadcast_hw.Clock.{
  Environment, development, one_hour, ClockRequest, set, advance, run,
}
use ai_email_broadcast_hw.Clock.Laws.{Governs, run-Governs}

abbrev tester : Environment
tester = record { node_env = development; flag = true }

-- The first of June 2027, in UTC.
abbrev june : ℕ
june = 63979200000000

abbrev in_utc : ℕ → WallClock
in_utc at = record {
  year = 2027;
  month = 6;
  day = 1;
  hour = (at - june) / 3600000;
  minute = 0;
  second = 0;
}

abbrev requests : List ClockRequest
requests =
    set (print_date 2027 6 1) (print_time 12 0) (some in_utc) none
    ∷ advance (some one_hour)
    ∷ set (print_date 9999 1 1) (print_time 12 0) (some in_utc) none
    ∷ []

held_at_one : run tester requests none ≡ some (june + 13 * 3600000)
unfolding run print_date print_time sort
held_at_one = refl

run-Governs_example : Governs tester 1000 (run tester requests none)
run-Governs_example = run-Governs tester requests 1000 none tt

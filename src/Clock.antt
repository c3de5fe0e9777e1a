-- ===== src/Clock.antt =====
-- The clock of the scheduling rules, src/lib/clock.ts, which the test panel may hold at an instant
-- (src/lib/testing/actions.ts), where src/lib/testing/access.ts allows it.
pub mod Laws
mod Tests
use ai_email_broadcast_hw.Base.{
  ℕ, ◌+◌, ◌*◌, Bool, true, false, not, ◌&&◌, ◌||◌, Option, none, some, List, [], ◌∷◌, Text, ltb,
  leb, if◌then◌else◌, is_some,
}
use ai_email_broadcast_hw.Api.{Response, ok, refused, bad_request, conflict}
use ai_email_broadcast_hw.Schedule.{ErrorCode, Field, Occurrence}
use ai_email_broadcast_hw.Schedule.Calendar.{WallClock, date_utc}
use ai_email_broadcast_hw.Schedule.Zone.{Resolved, candidates, unreadable, resolve_wall_clock}
use ai_email_broadcast_hw.Send.Requests.{schedule_error_key}

-- NODE_ENV; unset and misspelt are one.
pub data NodeEnv : Type 0 where
  development test production unknown : NodeEnv

-- `flag` is whether ENABLE_EMAIL_TEST_PANEL is exactly "true".
pub record Environment : Type 0 where
  pub node_env : NodeEnv
  pub flag : Bool

abbrev pub is_test_env : NodeEnv → Bool
is_test_env development = true
is_test_env test = true
is_test_env production = false
is_test_env unknown = false

unfoldable pub test_panel_enabled : Environment → Bool
test_panel_enabled env = is_test_env env.node_env && env.flag

-- The instant that the clock is held at is the state.
unfoldable pub active_test_time : Environment → Option ℕ → Option ℕ
unfolding test_panel_enabled
active_test_time env held = if test_panel_enabled env then held else none

abbrev pub or_real : ℕ → Option ℕ → ℕ
or_real real none = real
or_real real (some at) = at

-- `clock.now`, where the system's clock says `real`.
unfoldable pub clock_now : Environment → ℕ → Option ℕ → ℕ
unfolding active_test_time
clock_now env real held = or_real real (active_test_time env held)

-- `clock.dbNow`; none leaves it to the database's own clock.
unfoldable pub db_now : Environment → Option ℕ → Option ℕ
unfolding active_test_time
db_now env held = active_test_time env held

unfoldable pub is_simulated : Environment → Option ℕ → Bool
unfolding active_test_time
is_simulated env held = is_some (active_test_time env held)

-- `setFixedTime` and `advanceTime`; a throw is the old state.
unfoldable pub set_fixed_time : Environment → ℕ → Option ℕ → Option ℕ
unfolding test_panel_enabled
set_fixed_time env at held = if test_panel_enabled env then some at else held

abbrev pub later : ℕ → Option ℕ → Option ℕ
later ms none = none
later ms (some at) = some (at + ms)

unfoldable pub advance_time : Environment → ℕ → Option ℕ → Option ℕ
unfolding test_panel_enabled
advance_time env ms held = if test_panel_enabled env then later ms held else held

abbrev pub new_year : ℕ → WallClock
new_year y = record { year = y; month = 1; day = 1; hour = 0; minute = 0; second = 0 }

-- `assertClockYear`: a year from 2000 to 2100.
unfoldable pub in_clock_years : ℕ → Bool
unfolding date_utc
in_clock_years at = leb (date_utc (new_year 2000)) at && ltb at (date_utc (new_year 2101))

-- CLOCK_STEPS.
pub data Step : Type 0 where
  one_minute five_minutes one_hour one_day : Step

abbrev pub step_seconds : Step → ℕ
step_seconds one_minute = 60
step_seconds five_minutes = 300
step_seconds one_hour = 3600
step_seconds one_day = 86400

-- A request of the panel. The zone of a time to set is the clock on its wall, none where its name is
-- no zone's; a step is none where the text names no step.
pub data ClockRequest : Type 0 where
  reset no_action : ClockRequest
  set : Text → Text → Option (ℕ → WallClock) → Option Occurrence → ClockRequest
  advance : Option Step → ClockRequest

-- Where the tools are off `setFixedTime` throws.
abbrev pub hold_at : Environment → ℕ → Option ℕ → Response (Option ℕ) × Option ℕ
unfolding set_fixed_time in_clock_years
hold_at env at held =
    if not (in_clock_years at)
    then (bad_request "err.test.clockRange", held)
    else if test_panel_enabled env
    then (ok (set_fixed_time env at held), set_fixed_time env at held)
    else (refused 500 "err.unexpected", set_fixed_time env at held)

abbrev pub pick_instant : Option Occurrence → List ℕ → Option ℕ
pick_instant occurrence [] = none
pick_instant (some Occurrence.second) (c ∷ d ∷ cs) = some d
pick_instant (some Occurrence.second) (c ∷ []) = some c
pick_instant (some Occurrence.first) (c ∷ cs) = some c
pick_instant none (c ∷ cs) = some c

abbrev pub hold_picked : Environment → Option ℕ → Option ℕ → Response (Option ℕ) × Option ℕ
unfolding hold_at
hold_picked env none held = (refused 500 "err.unexpected", held)
hold_picked env (some at) held = hold_at env at held

abbrev pub hold_resolved :
    Environment → Option Occurrence → Resolved → Option ℕ → Response (Option ℕ) × Option ℕ
unfolding schedule_error_key hold_picked
hold_resolved env occurrence (unreadable code field) held =
    (bad_request (schedule_error_key code), held)
hold_resolved env occurrence (candidates cs) held =
    hold_picked env (pick_instant occurrence cs) held

abbrev pub advance_held : Environment → ℕ → Option ℕ → Option ℕ → Response (Option ℕ) × Option ℕ
unfolding advance_time in_clock_years
advance_held env seconds none held = (conflict "err.test.clockNotHeld", held)
advance_held env seconds (some at) held =
    if in_clock_years (at + seconds * 1000)
    then (ok (advance_time env (seconds * 1000) held), advance_time env (seconds * 1000) held)
    else (bad_request "err.test.clockRange", held)

-- `clockAction`.
unfoldable pub clock_action : Environment → ClockRequest → Option ℕ → Response (Option ℕ) × Option ℕ
unfolding hold_resolved advance_held active_test_time resolve_wall_clock
clock_action env reset held = (ok none, none)
clock_action env no_action held = (bad_request "err.test.action", held)
clock_action env (set date time none occurrence) held = (bad_request "err.test.timeZone", held)
clock_action env (set date time (some wall) occurrence) held =
    hold_resolved env occurrence (resolve_wall_clock wall date time) held
clock_action env (advance none) held = (bad_request "err.test.step", held)
clock_action env (advance (some step)) held =
    advance_held env (step_seconds step) (active_test_time env held) held

unfoldable pub run : Environment → List ClockRequest → Option ℕ → Option ℕ
unfolding clock_action
run env [] held = held
run env (r ∷ rs) held = run env rs (clock_action env r held).1

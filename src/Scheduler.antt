-- ===== src/Scheduler.antt =====
-- The cycles of the scheduler, `runSchedulerCycle` of src/lib/scheduler.ts, and the test scheduler
-- that asks for them, src/lib/testing/test-scheduler.ts. The process runs one piece of code at a
-- time; between two of them anything may happen that is an `Event`. A cycle's work is `runTick`, which
-- is modelled by itself; here a cycle begins and ends.
pub mod Laws
mod Tests
use ai_email_broadcast_hw.Base.{
  ℕ, zero, suc, ◌+◌, ◌-◌, ◌*◌, Bool, true, false, not, ◌&&◌, ◌||◌, Option, none, some, List, [],
  ◌∷◌, ◌==◌, leb, if◌then◌else◌, is_some,
}

pub data CycleSource : Type 0 where
  worker panel_loop run_now : CycleSource

abbrev pub is_worker : CycleSource → Bool
is_worker worker = true
is_worker panel_loop = false
is_worker run_now = false

-- The state of the process. The cycles that have begun and not ended, and the number of passes that
-- were told `busy` and have not ended, are what awaits in it.
pub record Scheduler : Type 0 where
  pub running : Bool
  pub interval_seconds : ℕ
  -- The moment that the loop's timer is set to.
  pub timer : Option ℕ
  pub last_ended_at : Option ℕ
  pub in_flight : Bool
  pub cycles : ℕ
  pub under_way : List CycleSource
  pub turned_away : ℕ

pub data CycleStart : Type 0 where
  began busy stopped : CycleStart

abbrev pub is_exclusive : Bool → CycleSource → Bool
is_exclusive testing source = testing || not (is_worker source)

-- `runSchedulerCycle`, up to its call of `runTick`.
unfoldable pub begin_cycle : Bool → CycleSource → Scheduler → CycleStart × Scheduler
begin_cycle testing source s =
    if testing && (is_worker source && not s.running)
    then (stopped, s)
    else if is_exclusive testing source && s.in_flight
    then (busy, s)
    else (
      began,
      record s {
        in_flight = is_exclusive testing source || s.in_flight;
        cycles = suc s.cycles;
        under_way = source ∷ s.under_way;
      },
    )

abbrev pub same_source : CycleSource → CycleSource → Bool
same_source worker worker = true
same_source panel_loop panel_loop = true
same_source run_now run_now = true
same_source _ _ = false

abbrev pub remove_one : CycleSource → List CycleSource → List CycleSource
remove_one a [] = []
remove_one a (b ∷ bs) = let rest = remove_one a bs in if same_source a b then bs else b ∷ rest

abbrev pub has_begun : CycleSource → List CycleSource → Bool
has_begun a [] = false
has_begun a (b ∷ bs) = same_source a b || has_begun a bs

-- The rest of it.
unfoldable pub end_cycle : Bool → CycleSource → Scheduler → Scheduler
end_cycle testing source s = record s {
  in_flight = if is_exclusive testing source then false else s.in_flight;
  under_way = remove_one source s.under_way;
}

abbrev pub clear_timer : Scheduler → Scheduler
clear_timer s = record s { timer = none }

-- `scheduleNext`.
unfoldable pub schedule_next : ℕ → ℕ → Scheduler → Scheduler
schedule_next now delay s =
    if s.running then record s { timer = some (now + delay) } else record s { timer = none }

-- The end of a pass: its `finally`.
unfoldable pub end_pass : ℕ → Scheduler → Scheduler
unfolding schedule_next
end_pass now s =
    schedule_next now (s.interval_seconds * 1000) (record s { last_ended_at = some now })

-- The beginning of a pass: a cycle that is refused makes it end soon.
abbrev pub after_start : CycleStart × Scheduler → Scheduler
after_start (began, s) = s
after_start (busy, s) = record s { turned_away = suc s.turned_away }
after_start (stopped, s) = record s { turned_away = suc s.turned_away }

unfoldable pub pass : Bool → Scheduler → Scheduler
unfolding begin_cycle
pass testing s =
    let t = clear_timer s in if t.running then after_start (begin_cycle testing panel_loop t) else t

unfoldable pub start_loop : Bool → ℕ → Scheduler → Scheduler
unfolding schedule_next
start_loop testing now s =
    if not testing || s.running then s else schedule_next now 0 (record s { running = true })

unfoldable pub stop_loop : Bool → Scheduler → Scheduler
stop_loop testing s =
    if not testing || not s.running then s else clear_timer (record s { running = false })

-- `checkInteger("schedulerInterval", raw)`; none is a value that is no whole number.
unfoldable pub check_interval : Option ℕ → Option ℕ
check_interval none = none
check_interval (some n) = if leb 1 n && leb n 300 then some n else none

abbrev pub or_now : ℕ → Option ℕ → ℕ
or_now now none = now
or_now now (some at) = at

abbrev pub retime : ℕ → Option ℕ → Scheduler → Scheduler
unfolding schedule_next
retime now none s = s
retime now (some n) s =
    let t = record s { interval_seconds = n } in
    if t.running && is_some t.timer
    then schedule_next now (or_now now t.last_ended_at + n * 1000 - now) t
    else t

unfoldable pub set_interval : Bool → ℕ → Option ℕ → Scheduler → Scheduler
unfolding check_interval retime
set_interval testing now raw s = if testing then retime now (check_interval raw) s else s

-- The end of a cycle; a pass ends with its own.
abbrev pub finish_cycle : Bool → ℕ → CycleSource → Scheduler → Scheduler
unfolding end_cycle end_pass
finish_cycle testing now worker s = end_cycle testing worker s
finish_cycle testing now run_now s = end_cycle testing run_now s
finish_cycle testing now panel_loop s = end_pass now (end_cycle testing panel_loop s)

pub data Event : Type 0 where
  started : Event
  stopping : Event
  interval_set : Option ℕ → Event
  timer_fired : Event
  requested : CycleSource → Event
  cycle_ended : CycleSource → Event
  pass_given_up : Event

-- What happens at an event; one that cannot happen, such as the firing of no timer, is nothing.
unfoldable pub step : Bool → ℕ → Event → Scheduler → Scheduler
unfolding start_loop stop_loop set_interval pass begin_cycle finish_cycle end_pass
step testing now started s = start_loop testing now s
step testing now stopping s = stop_loop testing s
step testing now (interval_set raw) s = set_interval testing now raw s
step testing now timer_fired s = if is_some s.timer then pass testing s else s
step testing now (requested worker) s = (begin_cycle testing worker s).1
step testing now (requested run_now) s = if testing then (begin_cycle testing run_now s).1 else s
step testing now (requested panel_loop) s = s
step testing now (cycle_ended source) s =
    if has_begun source s.under_way then finish_cycle testing now source s else s
step testing now pass_given_up s =
    if leb 1 s.turned_away then end_pass now (record s { turned_away = s.turned_away - 1 }) else s

unfoldable pub run : Bool → List (ℕ × Event) → Scheduler → Scheduler
unfolding step
run testing [] s = s
run testing ((now, e) ∷ es) s = run testing es (step testing now e s)

-- A fresh process.
abbrev pub fresh_process : Scheduler
fresh_process = record {
  running = false;
  interval_seconds = 5;
  timer = none;
  last_ended_at = none;
  in_flight = false;
  cycles = 0;
  under_way = [];
  turned_away = 0;
}

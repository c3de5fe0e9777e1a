-- ===== src/Scheduler/Tests.antt =====
-- The loop is started, asked to run at once while a pass is under way, stopped and started again
-- before that pass has ended.
use ai_email_broadcast_hw.Base.{ℕ, ◌≡◌, refl, true, some, List, [], ◌∷◌}
use ai_email_broadcast_hw.Scheduler.{
  CycleSource, Event, started, stopping, interval_set, timer_fired, requested, cycle_ended,
  pass_given_up, run, fresh_process,
}
use ai_email_broadcast_hw.Scheduler.Laws.{IsAlive, run-IsAlive}

abbrev history : List (ℕ × Event)
history =
    (1000, started)
    ∷ (1000, timer_fired)
    ∷ (1200, requested CycleSource.run_now)
    ∷ (1300, stopping)
    ∷ (1400, started)
    ∷ (1400, timer_fired)
    ∷ (1500, pass_given_up)
    ∷ (1600, cycle_ended CycleSource.panel_loop)
    ∷ (1700, interval_set (some 2))
    ∷ []

-- The pass that was refused had set the timer to 6,500 and the one that ended to 6,600; the new
-- interval counts from the end of the last.
set_again : (run true history fresh_process).timer ≡ some 3600
unfolding run
set_again = refl

one_cycle_ran : (run true history fresh_process).cycles ≡ 1
unfolding run
one_cycle_ran = refl

fresh_process-IsAlive : IsAlive fresh_process
fresh_process-IsAlive = record { one_cycle = refl; goes_on = λ e. e; rests = λ e. refl }

run-IsAlive_example : IsAlive (run true history fresh_process)
run-IsAlive_example = run-IsAlive history fresh_process fresh_process-IsAlive

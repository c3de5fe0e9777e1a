-- ===== src/Scheduler/Laws.antt =====
-- One cycle at a time, and a loop that does not stop by itself.
use ai_email_broadcast_hw.Base.{
  ℕ, suc, ◌-◌, ◌≤◌, ◌≡◌, refl, inl, inr, true, false, ◌||◌, Option, none, some, List, [], ◌∷◌,
  arith, leb, if◌then◌else◌, if_cases, if_both, is_some, length, Bool-cases,
}
use ai_email_broadcast_hw.Scheduler.{
  CycleSource, worker, panel_loop, run_now, Scheduler, begin_cycle, same_source, remove_one,
  has_begun, end_cycle, schedule_next, end_pass, pass, start_loop, stop_loop, check_interval,
  retime, set_interval, finish_cycle, Event, started, stopping, interval_set, timer_fired,
  requested, cycle_ended, pass_given_up, step, run,
}

-- With the test tools on.
pub record IsAlive (s : Scheduler) : Type 0 where
  -- At most one cycle is under way, and the flag says whether.
  pub one_cycle : length s.under_way ≡ (if s.in_flight then 1 else 0)
  -- A loop that runs has a pass to come, or one under way, which will set the timer.
  pub goes_on :
      s.running ≡ true
      → (is_some s.timer || (has_begun panel_loop s.under_way || leb 1 s.turned_away)) ≡ true
  -- One that was stopped has none to come.
  pub rests : s.running ≡ false → is_some s.timer ≡ false

start_loop-IsAlive : (now : ℕ) (s : Scheduler) → IsAlive s → IsAlive (start_loop true now s)
unfolding start_loop schedule_next
start_loop-IsAlive now s h = ground (arith, h.one_cycle, h.goes_on, h.rests)

stop_loop-IsAlive : (s : Scheduler) → IsAlive s → IsAlive (stop_loop true s)
unfolding stop_loop
stop_loop-IsAlive s h = ground (arith, h.one_cycle, h.goes_on, h.rests)

end_pass-IsAlive :
    (now : ℕ) (s : Scheduler)
    → length s.under_way ≡ (if s.in_flight then 1 else 0)
    → IsAlive (end_pass now s)
unfolding end_pass schedule_next
end_pass-IsAlive now s h = ground (arith, h)

retime-IsAlive : (now : ℕ) (n : Option ℕ) (s : Scheduler) → IsAlive s → IsAlive (retime now n s)
unfolding retime schedule_next
retime-IsAlive now none s h = h
retime-IsAlive now (some n) s h = ground (arith, h.one_cycle, h.goes_on, h.rests)

pass-IsAlive : (s : Scheduler) → IsAlive s → IsAlive (pass true s)
unfolding pass begin_cycle
pass-IsAlive s h = ground (arith, h.one_cycle, h.goes_on, h.rests)

begin_cycle-IsAlive :
    (source : CycleSource) (s : Scheduler) → IsAlive s → IsAlive (begin_cycle true source s).1
unfolding begin_cycle
begin_cycle-IsAlive source s h = ground (arith, h.one_cycle, h.goes_on, h.rests)

length-remove_one :
    (a : CycleSource) (us : List CycleSource)
    → has_begun a us ≡ true
    → suc (length (remove_one a us)) ≡ length us
length-remove_one a [] h = cc
length-remove_one a (b ∷ bs) h = elim (Bool-cases (same_source a b)) [
  | inl e ↦ ground (arith, e)
  | inr e ↦ ground (arith, e, h, length-remove_one a bs (ground (arith, e, h)))
]

-- With one cycle under way, it is that of the loop or of another.
not_both :
    (a : CycleSource) (us : List CycleSource)
    → same_source a panel_loop ≡ false
    → has_begun a us ≡ true
    → length us ≤ 1
    → has_begun panel_loop us ≡ false
not_both a [] n h l = cc
not_both worker (worker ∷ []) n h l = refl
not_both worker (panel_loop ∷ []) n h l = cc
not_both worker (run_now ∷ []) n h l = refl
not_both run_now (worker ∷ []) n h l = refl
not_both run_now (panel_loop ∷ []) n h l = cc
not_both run_now (run_now ∷ []) n h l = refl
not_both panel_loop (b ∷ []) n h l = cc
not_both a (b ∷ c ∷ us) n h l = absurd (ground (arith, l))

nothing_left :
    (source : CycleSource) (s : Scheduler)
    → IsAlive s
    → has_begun source s.under_way ≡ true
    → length (remove_one source s.under_way) ≡ 0
nothing_left source s h u = ground (arith, h.one_cycle, length-remove_one source s.under_way u)

end_cycle-IsAlive :
    (source : CycleSource) (s : Scheduler)
    → same_source source panel_loop ≡ false
    → IsAlive s
    → has_begun source s.under_way ≡ true
    → IsAlive (end_cycle true source s)
unfolding end_cycle
end_cycle-IsAlive source s n h u = ground (
  arith,
  h.one_cycle,
  h.goes_on,
  h.rests,
  nothing_left source s h u,
  not_both source s.under_way n u (ground (arith, h.one_cycle)),
)

finish_cycle-IsAlive :
    (now : ℕ) (source : CycleSource) (s : Scheduler)
    → IsAlive s
    → has_begun source s.under_way ≡ true
    → IsAlive (finish_cycle true now source s)
unfolding finish_cycle end_cycle
finish_cycle-IsAlive now worker s h u = end_cycle-IsAlive worker s refl h u
finish_cycle-IsAlive now run_now s h u = end_cycle-IsAlive run_now s refl h u
finish_cycle-IsAlive now panel_loop s h u =
    end_pass-IsAlive now (end_cycle true panel_loop s) (nothing_left panel_loop s h u)

step-IsAlive : (now : ℕ) (e : Event) (s : Scheduler) → IsAlive s → IsAlive (step true now e s)
unfolding step set_interval
step-IsAlive now started s h = start_loop-IsAlive now s h
step-IsAlive now stopping s h = stop_loop-IsAlive s h
step-IsAlive now (interval_set raw) s h = retime-IsAlive now (check_interval raw) s h
step-IsAlive now timer_fired s h = if_both IsAlive (is_some s.timer) (pass-IsAlive s h) h
step-IsAlive now (requested worker) s h = begin_cycle-IsAlive worker s h
step-IsAlive now (requested run_now) s h = begin_cycle-IsAlive run_now s h
step-IsAlive now (requested panel_loop) s h = h
step-IsAlive now (cycle_ended source) s h =
    if_cases IsAlive (has_begun source s.under_way) (λ u. finish_cycle-IsAlive now source s h u)
      (λ u. h)
step-IsAlive now pass_given_up s h =
    if_both IsAlive (leb 1 s.turned_away)
      (end_pass-IsAlive now (record s { turned_away = s.turned_away - 1 }) h.one_cycle) h

-- In a process with the test tools on, whatever happens and in whatever order, at most one cycle is
-- under way, whoever asked for it; a loop that runs has its next pass set, or has a pass under way
-- that sets it when it ends, so it never dies of itself; and a loop that was stopped has none set.
-- (It is so at the start, as it is of a fresh process.)
pub run-IsAlive : (es : List (ℕ × Event)) (s : Scheduler) → IsAlive s → IsAlive (run true es s)
unfolding run
run-IsAlive [] s h = h
run-IsAlive ((now, e) ∷ es) s h = run-IsAlive es (step true now e s) (step-IsAlive now e s h)

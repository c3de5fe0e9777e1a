-- ===== src/Clock/Laws.antt =====
-- The test clock stays within its years, and outside a test environment nothing ever moves it.
use ai_email_broadcast_hw.Base.{
  ℕ, ◌+◌, ◌*◌, ◌≡◌, sym, subst, true, Option, none, some, List, [], ◌∷◌, arith, if_cases, if_both,
  Bool-cases, ◌⊎◌, inl, inr,
}
use ai_email_broadcast_hw.Api.{Response}
use ai_email_broadcast_hw.Schedule.{Occurrence}
use ai_email_broadcast_hw.Schedule.Zone.{Resolved, candidates, unreadable, resolve_wall_clock}
use ai_email_broadcast_hw.Clock.{
  Environment, test_panel_enabled, active_test_time, clock_now, db_now, set_fixed_time,
  advance_time, in_clock_years, step_seconds, ClockRequest, reset, no_action, set, advance, hold_at,
  pick_instant, hold_picked, hold_resolved, advance_held, clock_action, run,
}

-- The clock is not held; or it is, in a test environment, at an instant of the years it may show.
abbrev pub MayHold : Environment → Option ℕ → Type 0
MayHold env none = Unit
MayHold env (some at) = (test_panel_enabled env ≡ true) × (in_clock_years at ≡ true)

module _ (env : Environment) where
  set_fixed_time-MayHold :
      (at : ℕ) (held : Option ℕ)
      → in_clock_years at ≡ true
      → MayHold env held
      → MayHold env (set_fixed_time env at held)
  unfolding set_fixed_time
  set_fixed_time-MayHold at held y h =
      if_cases (MayHold env) (test_panel_enabled env) (λ e. (e, y)) (λ e. h)

  hold_at-MayHold :
      (at : ℕ) (held : Option ℕ) → MayHold env held → MayHold env (hold_at env at held).1
  unfolding hold_at
  hold_at-MayHold at held h = elim (Bool-cases (in_clock_years at)) [
    | inr y ↦ rw y h
    | inl y ↦ rw y (
        if_both (λ (x : Response (Option ℕ) × Option ℕ). MayHold env x.1) (test_panel_enabled env)
          (set_fixed_time-MayHold at held y h) (set_fixed_time-MayHold at held y h))
  ]

  hold_picked-MayHold :
      (o held : Option ℕ) → MayHold env held → MayHold env (hold_picked env o held).1
  unfolding hold_picked
  hold_picked-MayHold none held h = h
  hold_picked-MayHold (some at) held h = hold_at-MayHold at held h

  hold_resolved-MayHold :
      (occurrence : Option Occurrence) (r : Resolved) (held : Option ℕ)
      → MayHold env held
      → MayHold env (hold_resolved env occurrence r held).1
  unfolding hold_resolved
  hold_resolved-MayHold occurrence (unreadable code field) held h = h
  hold_resolved-MayHold occurrence (candidates cs) held h =
      hold_picked-MayHold (pick_instant occurrence cs) held h

  -- Where the tools are off the clock is not held, so nothing is advanced.
  advance_held-MayHold :
      (seconds : ℕ) (held : Option ℕ)
      → MayHold env held
      → MayHold env (advance_held env seconds (active_test_time env held) held).1
  unfolding advance_held active_test_time advance_time
  advance_held-MayHold seconds none h = ground arith
  advance_held-MayHold seconds (some at) (on, y) = rw on (
      if_cases (λ (x : Response (Option ℕ) × Option ℕ). MayHold env x.1)
        (in_clock_years (at + seconds * 1000))
        (λ z. if_cases (MayHold env) (test_panel_enabled env) (λ e. (on, z)) (λ e. (on, y)))
        (λ z. (on, y)))

  clock_action-MayHold :
      (r : ClockRequest) (held : Option ℕ)
      → MayHold env held
      → MayHold env (clock_action env r held).1
  unfolding clock_action
  clock_action-MayHold reset held h = tt
  clock_action-MayHold no_action held h = h
  clock_action-MayHold (set date time none occurrence) held h = h
  clock_action-MayHold (set date time (some wall) occurrence) held h =
      hold_resolved-MayHold occurrence (resolve_wall_clock wall date time) held h
  clock_action-MayHold (advance none) held h = h
  clock_action-MayHold (advance (some step)) held h =
      advance_held-MayHold (step_seconds step) held h

  run-MayHold :
      (rs : List ClockRequest) (held : Option ℕ) → MayHold env held → MayHold env (run env rs held)
  unfolding run
  run-MayHold [] held h = h
  run-MayHold (r ∷ rs) held h =
      run-MayHold rs (clock_action env r held).1 (clock_action-MayHold r held h)

  -- Which clock the scheduling rules go by: the system's, and the database's own; or one instant for
  -- both, which the panel has set in a test environment.
  abbrev pub Governs : ℕ → Option ℕ → Type 0
  Governs real held =
      ((clock_now env real held ≡ real) × (db_now env held ≡ none))
      ⊎ ((test_panel_enabled env ≡ true)
          × (in_clock_years (clock_now env real held) ≡ true)
          × (db_now env held ≡ some (clock_now env real held)))

  MayHold-Governs : (real : ℕ) (held : Option ℕ) → MayHold env held → Governs real held
  unfolding clock_now db_now active_test_time
  MayHold-Governs real none h = inl (ground arith, ground arith)
  MayHold-Governs real (some at) (on, y) =
      let seen : clock_now env real (some at) ≡ at = ground (arith, on) in
      inr (on, subst (λ t. in_clock_years t ≡ true) (sym seen) y, ground (arith, on))

  -- Whatever the test panel is asked for, and whatever a request for it says, the scheduling rules go by
  -- the system's clock and the database's own; or they are in a development or test environment with
  -- the flag set, and both go by the one instant at which the panel holds the clock, which is in the
  -- years 2000 to 2100. (So it is at the start, as with a clock that is not held.)
  pub run-Governs :
      (rs : List ClockRequest) (real : ℕ) (held : Option ℕ)
      → MayHold env held
      → Governs real (run env rs held)
  run-Governs rs real held h = MayHold-Governs real (run env rs held) (run-MayHold rs held h)

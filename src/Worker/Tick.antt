-- ===== src/Worker/Tick.antt =====
-- One tick of the worker, `runTick` of src/lib/worker.ts: due campaigns are started, stuck ones
-- repaired, expired leases taken back, the queue is sent round by round, and campaigns with
-- nothing left to do are completed. The statements of the worker itself are taken not to throw.
use ai_email_broadcast_hw.Base.{
  ℕ, ◌<◌, ◌≡◌, refl, Bool, true, false, Option, none, some, List, length, All, is_some,
  if◌then◌else◌, if_both,
}
use ai_email_broadcast_hw.Store.{Store}
use ai_email_broadcast_hw.Audience.{Runtime}
use ai_email_broadcast_hw.Queue.{
  reclaim_expired_leases, finalize_completed_campaigns, prune_send_log, is_finished,
}
use ai_email_broadcast_hw.Queue.Finalize.{finalize_completed_campaigns_lem}
use ai_email_broadcast_hw.Activation.Cycle.{Moment, World, Cycle, activate_due_campaigns}
use ai_email_broadcast_hw.Activation.Cycle.Ends.{Steady, activate_due_campaigns-ends}
use ai_email_broadcast_hw.Activation.Recovery.{recover_stuck_campaigns}
use ai_email_broadcast_hw.Worker.{WorkerOptions, Round, Tally, tick_rounds}

pub record TickWorld : Type 0 where
  pub activation : World
  pub recovery_page : Moment
  pub recovery : ℕ → Moment
  pub reclaim_at : ℕ
  -- Whether `getSmtpConfig` finds a configuration.
  pub configured : Bool
  -- The rounds that start before the deadline.
  pub rounds : List Round
  pub finalize_at : ℕ
  pub prune_at : ℕ
  -- Whether pruning the log throws; the error is ignored.
  pub prune_throws : Bool

pub record TickResult : Type 0 where
  pub tally : Tally
  pub reclaimed : ℕ
  pub due_campaigns : ℕ
  pub activated_campaigns : ℕ
  pub failed_activations : ℕ
  pub recovered_campaigns : ℕ
  pub completed_campaigns : ℕ

abbrev pub no_mail : Tally
no_mail = record {
  claimed = 0;
  sent = 0;
  failed = 0;
  retried = 0;
  suppressed = 0;
  rate_limited = false;
}

-- The sending, unless there is no configuration.
unfoldable pub send_queue : WorkerOptions → TickWorld → Store → Tally × Store
send_queue o w s =
    if w.configured
    then (let p = tick_rounds o w.rounds no_mail s in (p.tally, p.store))
    else (no_mail, s)

-- Without a configuration the log is not pruned.
unfoldable pub prune : TickWorld → Store → Store
prune w s = if w.configured then (if w.prune_throws then s else prune_send_log w.prune_at s) else s

-- What follows the activation of due campaigns.
unfoldable pub finish_tick :
    Runtime → WorkerOptions → TickWorld → ℕ → ℕ → Cycle → TickResult × Store
unfolding send_queue prune
finish_tick rt o w grace limit k =
    let (recovery, repaired) =
      recover_stuck_campaigns rt w.recovery_page w.recovery grace limit k.store in
    let (reclaimed, freed) = reclaim_expired_leases o.queue w.reclaim_at repaired in
    let (tally, sent) = send_queue o w freed in
    let (completed, finalized) = finalize_completed_campaigns w.finalize_at sent in
    (
      record {
        tally = tally;
        reclaimed = reclaimed;
        due_campaigns = k.result.due;
        activated_campaigns = k.result.activated;
        failed_activations = k.result.failed;
        recovered_campaigns = recovery.recovered;
        completed_campaigns = completed;
      },
      prune w finalized,
    )

-- `none` means that the fuel of the activation ran out.
unfoldable pub run_tick :
    Runtime → WorkerOptions → TickWorld → ℕ → ℕ → ℕ → Store → Option (TickResult × Store)
unfolding finish_tick
run_tick rt o w grace limit fuel s = elim (activate_due_campaigns rt w.activation limit fuel s) [
  | none ↦ none
  | some k ↦ some (finish_tick rt o w grace limit k)
]

abbrev NoneFinished : Store → Type 0
NoneFinished s = All (λ c. is_finished s.recipients c ≡ false) s.campaigns

prune-NoneFinished : (w : TickWorld) (s : Store) → NoneFinished s → NoneFinished (prune w s)
unfolding prune prune_send_log
prune-NoneFinished w s h =
    if_both NoneFinished w.configured (if_both NoneFinished w.prune_throws h h) h

finish_tick-NoneFinished :
    (rt : Runtime) (o : WorkerOptions) (w : TickWorld) (grace limit : ℕ) (k : Cycle)
    → NoneFinished (finish_tick rt o w grace limit k).1
unfolding finish_tick
finish_tick-NoneFinished rt o w grace limit k =
    prune-NoneFinished w _ (finalize_completed_campaigns_lem w.finalize_at _).1

-- A tick comes to its end, with fuel for one round of activation a campaign and one more, where other
-- processes neither add nor remove campaigns while it activates; and at its end no campaign is left
-- open that has a queue, or is SENDING, and has nothing pending.
pub run_tick_finishes :
    (rt : Runtime) (o : WorkerOptions) (w : TickWorld) (grace limit fuel : ℕ) (s : Store)
    → Steady w.activation
    → length s.campaigns < fuel
    → (r : TickResult) × (s' : Store) × (run_tick rt o w grace limit fuel s ≡ some (r, s'))
      × All (λ c. is_finished s'.recipients c ≡ false) s'.campaigns
unfolding run_tick
run_tick_finishes rt o w grace limit fuel s steady h =
    by_cycle (activate_due_campaigns rt w.activation limit fuel s) refl
      (activate_due_campaigns-ends rt w.activation limit fuel s steady h)
  where
    by_cycle :
        (k : Option Cycle)
        → activate_due_campaigns rt w.activation limit fuel s ≡ k
        → is_some k ≡ true
        → (r : TickResult) × (s' : Store) × (run_tick rt o w grace limit fuel s ≡ some (r, s'))
          × All (λ c. is_finished s'.recipients c ≡ false) s'.campaigns
    by_cycle none e t = cc
    by_cycle (some k) e t =
        let x = finish_tick rt o w grace limit k in
        (x.0, x.1, rw (e, run_tick) refl, finish_tick-NoneFinished rt o w grace limit k)

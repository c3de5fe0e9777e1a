-- ===== src/Worker/Tests.antt =====
-- Two of the waiting rows are claimed and sent by four loops.
use ai_email_broadcast_hw.Base.{
  ◌≡◌, refl, ◌≤◌, ◌⊎◌, max, true, false, none, some, [], ◌∷◌, length, is_some, arith, All, List,
}
use ai_email_broadcast_hw.Store.{Store, find_campaign}
use ai_email_broadcast_hw.Queue.{
  ClaimedRecipient, claim_recipients, count_sent_in_window, is_suppressed, is_finished,
}
use ai_email_broadcast_hw.Rate.Laws.{IsShare, safety_factor-IsShare}
use ai_email_broadcast_hw.Activation.Cycle.Ends.{Steady}
use ai_email_broadcast_hw.Worker.{WorkerOptions, Round, factor_of, set_aside, tick_round}
use ai_email_broadcast_hw.Worker.Batch.{Turn, delivered, send_batch, is_over, attempted}
use ai_email_broadcast_hw.Worker.Settle.{send_batch_settles, send_batch_ends, in_sequence}
use ai_email_broadcast_hw.Worker.Settle.Rows.{NoneSending, open_ids}
use ai_email_broadcast_hw.Worker.Quota.{tick_round_within}
use ai_email_broadcast_hw.Worker.Welcome.{set_aside_welcome}
use ai_email_broadcast_hw.Worker.Tick.{TickWorld, TickResult, run_tick, run_tick_finishes, no_mail}
use ai_email_broadcast_hw.Samples.{config, unlocked, store, runtime, calm_moment}

abbrev options : WorkerOptions
options = record {
  queue = config;
  worker_id = "w1";
  rate = record { max_emails = 100; window_seconds = 3600; window_factor = none };
  env_factor = none;
  batch_cap = 200;
  concurrency = 4;
  tick_interval_seconds = 60;
}

abbrev round : Round
round = record {
  now = 1000;
  locked = unlocked;
  batch_turns = in_sequence 1000 (delivered ∷ delivered ∷ []);
}

abbrev claimed : List ClaimedRecipient × Store
claimed = claim_recipients config "w1" 2 1000 unlocked store

two_claimed : length claimed.0 ≤ 2
unfolding claim_recipients find_campaign
two_claimed = omega arith

send_batch_ends_example :
    is_over
      (send_batch config 4 (in_sequence 1000 (delivered ∷ delivered ∷ [])) claimed.0 claimed.1)
    ≡ true
send_batch_ends_example =
    send_batch_ends config 4 1000 (delivered ∷ delivered ∷ []) claimed.0 claimed.1 two_claimed

abbrev turns_taken : List Turn
turns_taken = in_sequence 1000 (delivered ∷ delivered ∷ [])

two_over : is_over (send_batch config 4 turns_taken claimed.0 claimed.1) ≡ true
two_over =
    send_batch_ends config 4 1000 (delivered ∷ delivered ∷ []) claimed.0 claimed.1 two_claimed

send_batch_settles_example :
    NoneSending
      (open_ids claimed.0)
      (send_batch config 4 turns_taken claimed.0 claimed.1).store.recipients
    × (attempted (send_batch config 4 turns_taken claimed.0 claimed.1) ≤ length claimed.0)
    × ((attempted (send_batch config 4 turns_taken claimed.0 claimed.1) ≡ length claimed.0)
        ⊎ (is_some (send_batch config 4 turns_taken claimed.0 claimed.1).auth_failure ≡ true))
send_batch_settles_example = send_batch_settles config 4 turns_taken claimed.0 claimed.1 two_over

set_aside_welcome_example :
    All
      (λ c. is_suppressed claimed.1.suppressions c.row.email_normalized ≡ false)
      (set_aside 1000 claimed.0 claimed.1).sendable
set_aside_welcome_example = set_aside_welcome 1000 claimed.0 claimed.1

default-IsShare : IsShare (factor_of options)
unfolding factor_of
default-IsShare = safety_factor-IsShare none

tick_round_within_example :
    count_sent_in_window 1000 3600 (tick_round options round no_mail store).store
    ≤ max (count_sent_in_window 1000 3600 store) 100
tick_round_within_example =
    tick_round_within options round no_mail store default-IsShare (refl, (refl, (refl, tt)))

abbrev world : TickWorld
world = record {
  activation = record { page_moment = λ n. calm_moment; try_moment = λ n. calm_moment };
  recovery_page = calm_moment;
  recovery = λ n. calm_moment;
  reclaim_at = 1000;
  configured = true;
  rounds = round ∷ [];
  finalize_at = 1001;
  prune_at = 1001;
  prune_throws = false;
}

world-Steady : Steady world.activation
world-Steady = record { page_ids = λ n s. refl; try_ids = λ n s. refl; still_late = λ n h. refl }

run_tick_finishes_example :
    (r : TickResult) × (s' : Store) × (run_tick runtime options world 300 100 3 store
      ≡ some (r, s'))
    × All (λ c. is_finished s'.recipients c ≡ false) s'.campaigns
run_tick_finishes_example =
    run_tick_finishes runtime options world 300 100 3 store world-Steady (omega arith)

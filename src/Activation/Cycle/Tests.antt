-- ===== src/Activation/Cycle/Tests.antt =====
-- The scheduled campaign is found due and started.
use ai_email_broadcast_hw.Base.{◌≡◌, refl, ◌≤◌, ◌⊎◌, true, false, none, some, arith, All, text_eq}
use mathlib.Core.Option
use ai_email_broadcast_hw.Address.{normalize_email, lower_ascii}
use ai_email_broadcast_hw.Queue.{is_suppressed}
use ai_email_broadcast_hw.Audience.{
  generate_recipients, sendable_for, load_candidates, dedupe_candidates, insert_recipient,
}
use ai_email_broadcast_hw.Activation.{from_scheduled, is_ready, queue_campaign, claim_campaign}
use ai_email_broadcast_hw.Activation.Failure.{
  failure, no_cause, caused_by, end, is_connection_failure,
}
use ai_email_broadcast_hw.Activation.Cycle.{
  World, Cycle, started, activate_due_campaigns, activate_rounds, activate_page, activate_one,
  due_page, attempt, conclude,
}
use ai_email_broadcast_hw.Activation.Cycle.Complete.{Calm, activate_due_campaigns_complete}
use ai_email_broadcast_hw.Samples.{runtime, store, calm_moment}

abbrev world : World
world = record { page_moment = λ n. calm_moment; try_moment = λ n. calm_moment }

calm_moment-Calm : Calm 1000 calm_moment
calm_moment-Calm = record {
  in_time = refl;
  at = refl;
  unlocked = λ i. refl;
  alone = λ s. refl;
  works = refl;
  closes = refl;
}

one_started :
    Option.map (λ k. started k.result) (activate_due_campaigns runtime world 100 3 store) ≡ some 1
unfolding activate_due_campaigns activate_rounds activate_page activate_one due_page attempt
    conclude started queue_campaign claim_campaign is_ready generate_recipients sendable_for
    load_candidates dedupe_candidates normalize_email lower_ascii insert_recipient text_eq
    is_suppressed
one_started = refl

-- The query layer wraps the driver's error.
wrapped_failure :
    is_connection_failure
      (failure none (caused_by (failure (some "ECONNREFUSED") no_cause end)) end)
    ≡ true
unfolding is_connection_failure
wrapped_failure = refl

activate_due_campaigns_complete_example :
    (k : Cycle) × (activate_due_campaigns runtime world 100 3 store ≡ some k)
    × ((100 ≤ started k.result)
        ⊎ All (λ c. is_ready from_scheduled 1000 c ≡ false) k.store.campaigns)
activate_due_campaigns_complete_example =
    activate_due_campaigns_complete runtime world 1000 100 3 store
      (record { pages = λ n. calm_moment-Calm; tries = λ n. calm_moment-Calm }) (omega arith)

-- ===== src/Activation/Recovery/Tests.antt =====
-- A campaign that is QUEUED without a queue is repaired.
use ai_email_broadcast_hw.Base.{◌≡◌, refl, none, [], ◌∷◌}
use ai_email_broadcast_hw.Store.{Store}
use ai_email_broadcast_hw.Store.Status.{CampaignStatus}
use ai_email_broadcast_hw.Activation.Cycle.Complete.{Calm}
use ai_email_broadcast_hw.Activation.Recovery.{try_repair, recover_stuck_campaigns, stuck_page}
use ai_email_broadcast_hw.Queue.{has_queue}
use ai_email_broadcast_hw.Activation.Recovery.Laws.{Repaired, try_repair-Repaired}
use ai_email_broadcast_hw.Activation.Recovery.Cured.{Cured, recover_stuck_campaigns-Cured}
use ai_email_broadcast_hw.Samples.{runtime, store, campaign, calm_moment}

abbrev stuck_store : Store
stuck_store = record store { campaigns = campaign 2 CampaignStatus.queued none ∷ [] }

one_stuck : stuck_page 0 1000 100 stuck_store ≡ 2 ∷ []
unfolding stuck_page has_queue
one_stuck = refl

calm : Calm 1000 calm_moment
calm = record {
  in_time = refl;
  at = refl;
  unlocked = λ i. refl;
  alone = λ s. refl;
  works = refl;
  closes = refl;
}

try_repair-Repaired_example :
    Repaired 2 stuck_store
      (try_repair runtime calm_moment 2 stuck_store).0
      (try_repair runtime calm_moment 2 stuck_store).1
try_repair-Repaired_example = try_repair-Repaired runtime calm_moment 2 stuck_store

recover_stuck_campaigns-Cured_example :
    Cured
      (stuck_page 0 1000 100 stuck_store)
      (recover_stuck_campaigns runtime calm_moment (λ n. calm_moment) 0 100 stuck_store).1
recover_stuck_campaigns-Cured_example =
    recover_stuck_campaigns-Cured runtime calm_moment (λ n. calm_moment) 1000 0 100 stuck_store calm
      (λ n. calm)

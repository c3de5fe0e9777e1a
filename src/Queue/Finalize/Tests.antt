-- ===== src/Queue/Finalize/Tests.antt =====
-- Nothing is finished while a row waits.
use ai_email_broadcast_hw.Base.{◌≡◌, false, All, Pointwise}
use ai_email_broadcast_hw.Queue.{is_finished, finalize_completed_campaigns}
use ai_email_broadcast_hw.Queue.Finalize.{Completes, finalize_completed_campaigns_lem}
use ai_email_broadcast_hw.Samples.{store}

finalize_completed_campaigns_lem_example :
    Pointwise
      (Completes 1000 store.recipients)
      store.campaigns
      (finalize_completed_campaigns 1000 store).1.campaigns
    × All
        (λ c. is_finished (finalize_completed_campaigns 1000 store).1.recipients c ≡ false)
        (finalize_completed_campaigns 1000 store).1.campaigns
    × ((finalize_completed_campaigns 1000 store).1.recipients ≡ store.recipients)
finalize_completed_campaigns_lem_example = finalize_completed_campaigns_lem 1000 store

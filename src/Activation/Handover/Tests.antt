-- ===== src/Activation/Handover/Tests.antt =====
-- The scheduled campaign is handed over when its time has come.
use ai_email_broadcast_hw.Activation.{from_scheduled, queue_campaign}
use ai_email_broadcast_hw.Activation.Handover.{Outcome, queue_campaign-Outcome}
use ai_email_broadcast_hw.Samples.{runtime, unlocked, store}

queue_campaign-Outcome_example :
    Outcome 2 store
      (queue_campaign runtime 1000 1000 unlocked 2 from_scheduled store).0
      (queue_campaign runtime 1000 1000 unlocked 2 from_scheduled store).1
queue_campaign-Outcome_example =
    queue_campaign-Outcome runtime 1000 1000 unlocked 2 from_scheduled store

-- ===== src/Campaign/Laws/Tests.antt =====
-- The campaign that is being sent is paused, or cancelled.
use ai_email_broadcast_hw.Base.{ℕ, ◌≡◌, Bool, false, All}
use ai_email_broadcast_hw.Api.{ok}
use ai_email_broadcast_hw.Store.{Recipient}
use ai_email_broadcast_hw.Queue.{is_claimable}
use ai_email_broadcast_hw.Campaign.{pause, cancel, waits_in}
use ai_email_broadcast_hw.Campaign.Laws.{pause_stops, cancel_stops}
use ai_email_broadcast_hw.Samples.{store}

pause_stops_example :
    ((later : ℕ) (locked : ℕ → Bool) (r : Recipient)
      → r.campaign_id ≡ 1
      → is_claimable later locked (pause 1000 1 store).1.campaigns r ≡ false)
    × ((pause 1000 1 store).1.recipients ≡ store.recipients)
pause_stops_example = pause_stops 1000 1 store

cancel_stops_example :
    ((later : ℕ) (locked : ℕ → Bool) (r : Recipient)
      → r.campaign_id ≡ 1
      → is_claimable later locked (cancel 1000 1 store).1.campaigns r ≡ false)
    × ((n : ℕ)
        → (cancel 1000 1 store).0 ≡ ok n
        → All (λ r. waits_in 1 r ≡ false) (cancel 1000 1 store).1.recipients)
cancel_stops_example = cancel_stops 1000 1 store

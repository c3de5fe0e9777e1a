-- ===== src/Campaign/Laws.antt =====
-- Pausing and cancelling stop the claims of a campaign.
mod Tests
use ai_email_broadcast_hw.Base.{
  ℕ, ◌≡◌, refl, Bool, true, false, ◌&&◌, ◌||◌, List, [], ◌∷◌, arith, ◌==◌, All, All-true,
  All-false-update, Option-cases, inl, inr, update_where,
}
use ai_email_broadcast_hw.Api.{Response, ok}
use ai_email_broadcast_hw.Store.{Store, Campaign, Recipient, find_campaign}
use ai_email_broadcast_hw.Store.Status.{CampaignStatus, DeliveryStatus, campaign_is, delivery_is}
use ai_email_broadcast_hw.Queue.{is_sendable, is_claimable}
use ai_email_broadcast_hw.Campaign.{
  update_campaign, pause, close_campaign, cancel_row, waits_in, cancel_recipients, is_under_way,
  cancel,
}

-- The campaigns of which rows are claimed.
abbrev pub sends_now : ℕ → Campaign → Bool
sends_now i c =
    c.id == i
    && (campaign_is c.status CampaignStatus.queued || campaign_is c.status CampaignStatus.sending)

not_sendable :
    (i : ℕ) (cs : List Campaign)
    → All (λ c. sends_now i c ≡ false) cs
    → is_sendable (find_campaign i cs) ≡ false
unfolding is_sendable find_campaign
not_sendable i [] h = refl
not_sendable i (c ∷ cs) (h, hs) = ground (arith, not_sendable i cs hs)

not_claimable :
    (later i : ℕ) (locked : ℕ → Bool) (cs : List Campaign) (r : Recipient)
    → All (λ c. sends_now i c ≡ false) cs
    → r.campaign_id ≡ i
    → is_claimable later locked cs r ≡ false
unfolding is_claimable
not_claimable later i locked cs r h e = rw e (ground (arith, not_sendable i cs h))

module _ (now i : ℕ) (s : Store) where
  campaigns-pause :
      (pause now i s).1.campaigns
      ≡ update_where
          (sends_now i)
          (λ c. record c { status = CampaignStatus.paused; updated_at = now })
          s.campaigns
  unfolding pause update_campaign
  campaigns-pause = ground arith

  recipients-pause : (pause now i s).1.recipients ≡ s.recipients
  unfolding pause update_campaign
  recipients-pause = ground arith

  none_after_pause : All (λ c. sends_now i c ≡ false) (pause now i s).1.campaigns
  none_after_pause = rw campaigns-pause (
      All-false-update _ (sends_now i) _ s.campaigns (λ c h. ground arith)
        (All-true _ s.campaigns (λ c h. h)))

  -- After a request to pause a campaign, whatever it answered, none of its rows can be claimed, and
  -- the rows are as they were.
  pub pause_stops :
      ((later : ℕ) (locked : ℕ → Bool) (r : Recipient)
        → r.campaign_id ≡ i
        → is_claimable later locked (pause now i s).1.campaigns r ≡ false)
      × ((pause now i s).1.recipients ≡ s.recipients)
  pause_stops =
      (λ later locked r e. not_claimable later i locked _ r none_after_pause e, recipients-pause)

  abbrev closes : Campaign → Bool
  unfolding is_under_way
  closes c = c.id == i && is_under_way c

  campaigns-cancel :
      (cancel now i s).1.campaigns ≡ update_where closes (close_campaign now) s.campaigns
  unfolding cancel update_campaign
  campaigns-cancel = ground arith

  none_after_cancel : All (λ c. sends_now i c ≡ false) (cancel now i s).1.campaigns
  unfolding close_campaign is_under_way
  none_after_cancel = rw campaigns-cancel (
      All-false-update _ closes (close_campaign now) s.campaigns (λ c h. ground arith)
        (All-true _ s.campaigns (λ c h. ground arith)))

  none_waits :
      (rs : List Recipient)
      → All (λ r. waits_in i r ≡ false) (update_where (waits_in i) cancel_row rs)
  unfolding waits_in cancel_row
  none_waits rs =
      All-false-update _ (waits_in i) cancel_row rs (λ r h. ground arith) (All-true _ rs (λ r h. h))

  cancelled_rows :
      (n : ℕ)
      → (cancel now i s).0 ≡ ok n
      → All (λ r. waits_in i r ≡ false) (cancel now i s).1.recipients
  unfolding cancel
  cancelled_rows n e =
      elim (Option-cases (update_campaign i is_under_way (close_campaign now) s).0) [
        | inl h ↦ absurd (ground arith)
        | inr (c, h) ↦ rw (h, cancel) (none_waits _)
      ]

  -- After a request to cancel a campaign, whatever it answered, none of its rows can be claimed; and
  -- when it was granted none of them is left waiting.
  pub cancel_stops :
      ((later : ℕ) (locked : ℕ → Bool) (r : Recipient)
        → r.campaign_id ≡ i
        → is_claimable later locked (cancel now i s).1.campaigns r ≡ false)
      × ((n : ℕ)
          → (cancel now i s).0 ≡ ok n
          → All (λ r. waits_in i r ≡ false) (cancel now i s).1.recipients)
  cancel_stops =
      (λ later locked r e. not_claimable later i locked _ r none_after_cancel e, cancelled_rows)

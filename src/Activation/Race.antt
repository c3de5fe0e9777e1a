-- ===== src/Activation/Race.antt =====
-- The writes that compete for a scheduled campaign: activation, cancelling and rescheduling. Each is
-- a conditional write of one row, so they run one after the other; of two only the first succeeds.
mod Tests
use ai_email_broadcast_hw.Base.{
  ℕ, ◌<◌, ◌≤◌, ◌≡◌, refl, ap, subst, ◌∙◌, ◌⊎◌, inl, inr, Bool, true, false, not, ◌&&◌, Option, none,
  some, List, [], ◌∷◌, map, arith, ◌==◌, leb, ltb, if◌then◌else◌, All, All-mono, All-true,
  All-false-update, Bool-cases, Option-cases, select, select_none, update_where, update_none,
  is_some,
}
use ai_email_broadcast_hw.Base.Keys.{Distinct}
use ai_email_broadcast_hw.Store.{Store, Campaign, find_campaign}
use ai_email_broadcast_hw.Store.Status.{CampaignStatus, campaign_is}
use ai_email_broadcast_hw.Store.Lookup.{first, AllHaveStatus, find_campaign-status, only_row}
use ai_email_broadcast_hw.Audience.{Runtime, GenerateResult}
use ai_email_broadcast_hw.Campaign.{
  update_campaign, close_campaign, CancelScheduled, cancel_scheduled, explain_cancel, Rescheduled,
  moved, reschedule, explain_reschedule, is_ahead,
}
use ai_email_broadcast_hw.Activation.{
  QueueSource, from_scheduled, QueueResult, queued, unavailable, is_due, is_ready, claim_campaign,
  queue_campaign,
}
use ai_email_broadcast_hw.Activation.Handover.{queue_campaign-Outcome, Outcome}

queue_unavailable :
    (rt : Runtime) (now clock i : ℕ) (locked : ℕ → Bool) (s : Store)
    → claim_campaign i from_scheduled clock locked s.campaigns ≡ none
    → queue_campaign rt now clock locked i from_scheduled s ≡ (unavailable, s)
unfolding queue_campaign
queue_unavailable rt now clock i locked s e = rw (e, queue_campaign) refl

is_scheduled : ℕ → Campaign → Bool
is_scheduled i c = c.id == i && campaign_is c.status CampaignStatus.scheduled

campaigns-cancel_scheduled :
    (now i : ℕ) (s : Store)
    → (cancel_scheduled now i s).1.campaigns
      ≡ update_where (is_scheduled i) (close_campaign now) s.campaigns
unfolding cancel_scheduled update_campaign is_scheduled
campaigns-cancel_scheduled now i s = ground arith

cancelled_not_ready :
    (now clock i : ℕ) (locked : ℕ → Bool) (s : Store)
    → claim_campaign i from_scheduled clock locked (cancel_scheduled now i s).1.campaigns ≡ none
unfolding claim_campaign is_ready is_scheduled close_campaign
cancelled_not_ready now clock i locked s = rw (campaigns-cancel_scheduled now i s) (
    ap first (
      select_none _ _ (
        All-false-update _ (is_scheduled i) (close_campaign now) s.campaigns (λ c h. ground arith)
          (All-true _ s.campaigns (λ c h. ground arith)))))

pub update_campaign-none :
    (i : ℕ) (p : Campaign → Bool) (f : Campaign → Campaign) (t : Store)
    → All (λ c. (c.id == i && p c) ≡ false) t.campaigns
    → update_campaign i p f t ≡ (none, t)
unfolding update_campaign
update_campaign-none i p f t h =
    rw (select_none _ t.campaigns h, update_none _ f t.campaigns h) refl

abbrev pub move_to : ℕ → ℕ → Campaign → Campaign
move_to now moment c = record c { scheduled_at = some moment; updated_at = now }

module _ (later clock i : ℕ) (t : Store) where
  cancel_refused :
      {c : Campaign}
      → AllHaveStatus i CampaignStatus.queued t.campaigns
      → find_campaign i t.campaigns ≡ some c
      → cancel_scheduled later i t ≡ (CancelScheduled.in_conflict CampaignStatus.queued, t)
  unfolding cancel_scheduled explain_cancel
  cancel_refused h e =
      let s = find_campaign-status i CampaignStatus.queued t.campaigns h e in
      let none_hit =
        update_campaign-none i (λ c. campaign_is c.status CampaignStatus.scheduled)
          (close_campaign later) t (All-mono _ _ t.campaigns (λ c k. ground arith) h) in
      rw (none_hit, cancel_scheduled) (rw none_hit (rw (e, explain_cancel) (rw s refl)))

  reschedule_refused :
      (moment : ℕ) {c : Campaign}
      → AllHaveStatus i CampaignStatus.queued t.campaigns
      → find_campaign i t.campaigns ≡ some c
      → reschedule later clock i moment t ≡ (Rescheduled.in_conflict CampaignStatus.queued false, t)
  unfolding reschedule explain_reschedule
  reschedule_refused moment h e =
      let s = find_campaign-status i CampaignStatus.queued t.campaigns h e in
      let none_hit =
        update_campaign-none i
          (λ c. campaign_is c.status CampaignStatus.scheduled && is_ahead clock c.scheduled_at)
          (move_to later moment) t (All-mono _ _ t.campaigns (λ c k. ground arith) h) in
      rw (none_hit, reschedule) (rw none_hit (rw (e, explain_reschedule) (rw s refl)))

handed_over :
    (i : ℕ) (s s' : Store) (r : QueueResult) (at : Option ℕ) (g : GenerateResult)
    → r ≡ queued at g
    → Outcome i s r s'
    → AllHaveStatus i CampaignStatus.queued s'.campaigns
      × ((c : Campaign) × (find_campaign i s'.campaigns ≡ some c))
handed_over i s s' r at g e o = let w = subst (λ x. Outcome i s x s') e o in (w.0, ground arith)

module _ (rt : Runtime) (now later clock i : ℕ) (locked : ℕ → Bool) (s : Store) where
  -- Once a schedule has been cancelled, the scheduler does not start the campaign, whatever its clock
  -- says; it changes nothing.
  cancelled_not_activated :
      queue_campaign rt later clock locked i from_scheduled (cancel_scheduled now i s).1
      ≡ (unavailable, (cancel_scheduled now i s).1)
  cancelled_not_activated =
      queue_unavailable rt later clock i locked (cancel_scheduled now i s).1
        (cancelled_not_ready now clock i locked s)

  -- Once the scheduler has started a campaign, the schedule can neither be cancelled nor moved: both
  -- report the status QUEUED, and change nothing.
  activated_not_cancelled :
      (at : Option ℕ) (g : GenerateResult)
      → (queue_campaign rt now clock locked i from_scheduled s).0 ≡ queued at g
      → let s' = (queue_campaign rt now clock locked i from_scheduled s).1 in
        (cancel_scheduled later i s' ≡ (CancelScheduled.in_conflict CampaignStatus.queued, s'))
        × ((moment : ℕ)
            → reschedule later clock i moment s'
              ≡ (Rescheduled.in_conflict CampaignStatus.queued false, s'))
  activated_not_cancelled at g e =
      let h =
        handed_over i s _ _ at g e
          (queue_campaign-Outcome rt now clock locked i from_scheduled s) in
      (
        cancel_refused later clock i _ h.0 h.1.1,
        λ moment. reschedule_refused later clock i _ moment h.0 h.1.1,
      )

movable : ℕ → ℕ → Campaign → Bool
unfolding is_ahead
movable clock i c =
    c.id == i && (campaign_is c.status CampaignStatus.scheduled && is_ahead clock c.scheduled_at)

moved_hit :
    (now clock i moment : ℕ) (s : Store) (c : Campaign)
    → (reschedule now clock i moment s).0 ≡ moved c
    → (d : Campaign) × (first (select (movable clock i) s.campaigns) ≡ some d)
unfolding reschedule update_campaign movable explain_reschedule
moved_hit now clock i moment s c e =
    elim (Option-cases (first (select (movable clock i) s.campaigns))) [
      | inr hit ↦ hit
      | inl none_hit ↦ absurd (ground arith)
    ]

campaigns-reschedule :
    (now clock i moment : ℕ) (s : Store)
    → (reschedule now clock i moment s).1.campaigns
      ≡ update_where (movable clock i) (move_to now moment) s.campaigns
unfolding reschedule update_campaign movable
campaigns-reschedule now clock i moment s = ground arith

module _ (rt : Runtime) (now later clock i moment : ℕ) (locked : ℕ → Bool) (s : Store) where
  -- A campaign that was moved to a later moment is not started before that moment.
  moved_not_activated :
      (c : Campaign) (early : ℕ)
      → Distinct (map (λ (c : Campaign). c.id) s.campaigns)
      → (reschedule now clock i moment s).0 ≡ moved c
      → early < moment
      → let s' = (reschedule now clock i moment s).1 in
        queue_campaign rt later early locked i from_scheduled s' ≡ (unavailable, s')
  unfolding claim_campaign is_ready movable
  moved_not_activated c early keys e h =
      queue_unavailable rt later early i locked (reschedule now clock i moment s).1
        (not_before c early keys e h)
    where
      not_before :
          (c : Campaign) (early : ℕ)
          → Distinct (map (λ (c : Campaign). c.id) s.campaigns)
          → (reschedule now clock i moment s).0 ≡ moved c
          → early < moment
          → claim_campaign i from_scheduled early locked
              (reschedule now clock i moment s).1.campaigns
            ≡ none
      not_before c early keys e h = rw (campaigns-reschedule now clock i moment s) (
          ap first (
            select_none _ _ (
              All-false-update _ (movable clock i) (move_to now moment) s.campaigns
                (λ c k. ground arith)
                (All-mono _ _ s.campaigns (λ c k m. ground (arith, k))
                  (only_row i (movable clock i) s.campaigns keys (λ c k. ground arith)
                    (moved_hit now clock i moment s c e).1)))))

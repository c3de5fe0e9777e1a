-- ===== src/Activation/Cycle/Ids.antt =====
-- Handing campaigns over, and closing them, adds and removes none.
use ai_email_broadcast_hw.Base.{
  ℕ, ◌≡◌, refl, ◌∙◌, ap, inl, inr, Bool, List, map, ◌==◌, Option-cases, if_both,
}
use ai_email_broadcast_hw.Base.Keys.{map-update_where}
use ai_email_broadcast_hw.Store.{Store, Campaign}
use ai_email_broadcast_hw.Audience.{Runtime, generate_recipients}
use ai_email_broadcast_hw.Audience.Statuses.{generate_recipients-campaigns}
use ai_email_broadcast_hw.Activation.Handover.{taken_over}
use ai_email_broadcast_hw.Activation.{
  from_scheduled, QueueResult, queued, unavailable, queue_campaign, cancel_empty_campaign,
  claim_campaign, QueueSource, enqueue_campaign,
}
use ai_email_broadcast_hw.Activation.Cycle.{ActivationResult, Moment, conclude, attempt}

abbrev pub campaign_ids : Store → List ℕ
campaign_ids s = map (λ (c : Campaign). c.id) s.campaigns

-- Handing a campaign over adds and removes none.
module _ (rt : Runtime) (now : ℕ) where
  pub ids-generate_recipients :
      (i : ℕ) (s : Store) → campaign_ids (generate_recipients rt now i s).1 ≡ campaign_ids s
  ids-generate_recipients i s =
      ap (map (λ (c : Campaign). c.id)) (generate_recipients-campaigns rt now i s)
      ∙ map-update_where (λ (c : Campaign). c.id) (λ c. c.id == i) _ s.campaigns (λ c. refl)

  pub ids-queue_campaign :
      (clock : ℕ) (locked : ℕ → Bool) (i : ℕ) (source : QueueSource) (s : Store)
      → campaign_ids (queue_campaign rt now clock locked i source s).1 ≡ campaign_ids s
  unfolding queue_campaign enqueue_campaign
  ids-queue_campaign clock locked i source s =
      elim (Option-cases (claim_campaign i source clock locked s.campaigns)) [
        | inl e ↦ rw (e, queue_campaign) refl
        | inr (c, e) ↦
            rw (e, queue_campaign)
              (if_both (λ (x : QueueResult × Store). campaign_ids x.1 ≡ campaign_ids s)
                ((generate_recipients rt now i (taken_over now i s)).0.total == 0) refl
                (ids-generate_recipients i (taken_over now i s)
                  ∙ map-update_where (λ (c : Campaign). c.id) (λ c. c.id == i) _ s.campaigns
                      (λ c. refl)))
      ]

ids-conclude :
    (m : Moment) (c : Campaign) (r : ActivationResult) (q : QueueResult × Store)
    → campaign_ids (conclude m c r q).1 ≡ campaign_ids q.1
unfolding conclude cancel_empty_campaign
ids-conclude m c r (queued at g, s) = refl
ids-conclude m c r (unavailable, s) = refl
ids-conclude m c r (QueueResult.no_recipients, s) = elim (Option-cases m.close_throws) [
  | inl e ↦ rw (e, conclude) (map-update_where (λ (c : Campaign). c.id) _ _ s.campaigns (λ c. refl))
  | inr (f, e) ↦ rw (e, conclude) refl
]

pub ids-attempt :
    (rt : Runtime) (m : Moment) (c : Campaign) (r : ActivationResult) (s : Store)
    → campaign_ids (attempt rt m c r s).1 ≡ campaign_ids s
unfolding attempt
ids-attempt rt m c r s = elim (Option-cases m.throws) [
  | inl e ↦
      rw (e, attempt)
        (ids-conclude m c r (queue_campaign rt m.now m.clock m.locked c.id from_scheduled s)
          ∙ ids-queue_campaign rt m.now m.clock m.locked c.id from_scheduled s)
  | inr (f, e) ↦ rw (e, attempt) refl
]

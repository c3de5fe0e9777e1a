-- ===== src/Activation/Recovery/Laws.antt =====
-- A repair gives a stuck campaign its queue or closes it, and does nothing to any other.
use ai_email_broadcast_hw.Base.{
  ℕ, ◌<◌, ◌≡◌, refl, sym, ◌∙◌, inl, inr, false, arith, ◌==◌, Option-cases, if_cases, count_where,
}
use ai_email_broadcast_hw.Store.{Store}
use ai_email_broadcast_hw.Store.Status.{CampaignStatus}
use ai_email_broadcast_hw.Store.Lookup.{AllHaveStatus, update_sets_status}
use ai_email_broadcast_hw.Queue.{has_queue}
use ai_email_broadcast_hw.Audience.{Runtime, generate_recipients, belongs_to}
use ai_email_broadcast_hw.Audience.Generate.{total-generate_recipients}
use ai_email_broadcast_hw.Campaign.{close_campaign}
use ai_email_broadcast_hw.Activation.Cycle.{Moment}
use ai_email_broadcast_hw.Activation.Recovery.{
  RecoveryOutcome, recovered, cancelled, skipped, failed, hold, repair, try_repair,
}

-- What each outcome of a repair says of the campaign, and of the stores before and after it.
abbrev pub Repaired : ℕ → Store → RecoveryOutcome → Store → Type 0
Repaired i s (recovered n) s' =
    (has_queue i s.recipients ≡ false) × (0 < n) × (n ≡ count_where (belongs_to i) s'.recipients)
Repaired i s cancelled s' =
    (has_queue i s.recipients ≡ false)
    × AllHaveStatus i CampaignStatus.cancelled s'.campaigns
    × (count_where (belongs_to i) s'.recipients ≡ 0)
Repaired i s skipped s' = s' ≡ s
Repaired i s (failed e) s' = s' ≡ s

module _ (rt : Runtime) (m : Moment) (i : ℕ) (s : Store) where
  repair-Repaired : Repaired i s (repair rt m i s).0 (repair rt m i s).1
  unfolding repair
  repair-Repaired = elim (Option-cases (hold i m.locked s.campaigns)) [
    | inl e ↦ rw (e, repair) refl
    | inr (c, e) ↦
        let g = generate_recipients rt m.now i s in
        let counts = total-generate_recipients rt m.now i s in
        let P = λ (x : RecoveryOutcome × Store). Repaired i s x.0 x.1 in
        rw (e, repair)
          (if_cases P (has_queue i s.recipients) (λ h. refl)
            (λ h.
              if_cases P (g.0.total == 0)
                (λ z. (
                  h,
                  update_sets_status i CampaignStatus.cancelled (λ c. c.id == i) _ g.1.campaigns
                      (λ c. unfold close_campaign in refl) (λ c a b. cc),
                  sym counts ∙ ground arith,
                ))
                (λ z. (h, ground arith, counts))))
  ]

  -- A repair, whatever comes of it: a campaign that is given a queue had none, and gets the rows that
  -- are reported, at least one; a campaign that is closed has no row; and one that is skipped, or
  -- whose repair throws, leaves the store as it was.
  pub try_repair-Repaired : Repaired i s (try_repair rt m i s).0 (try_repair rt m i s).1
  unfolding try_repair
  try_repair-Repaired = elim (Option-cases m.throws) [
    | inl e ↦ rw (e, try_repair) repair-Repaired
    | inr (f, e) ↦ rw (e, try_repair) refl
  ]

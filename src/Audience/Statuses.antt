-- ===== src/Audience/Statuses.antt =====
-- Writing a queue leaves every campaign's status alone.
use ai_email_broadcast_hw.Base.{
  ℕ, ◌≡◌, refl, ◌∙◌, inl, inr, List, [], ◌∷◌, ◌==◌, ap, is_some, Bool-cases, update_where,
}
use ai_email_broadcast_hw.Store.{Store, Campaign, find_campaign}
use ai_email_broadcast_hw.Store.Status.{CampaignStatus}
use ai_email_broadcast_hw.Store.Lookup.{AllHaveStatus, update_keeps_status, is_some-find-update}
use ai_email_broadcast_hw.Audience.{
  Runtime, Unique, generate_recipients, insert_recipient, insert_recipients, has_row, sendable_for,
}

module _ (rt : Runtime) (now i : ℕ) where
  insert_recipient-campaigns :
      (u : Unique) (s : Store) → (insert_recipient rt now i u s).campaigns ≡ s.campaigns
  unfolding insert_recipient
  insert_recipient-campaigns u s = elim (Bool-cases (has_row i u.email_normalized s.recipients)) [
    | inl e ↦ rw e refl
    | inr e ↦ rw e refl
  ]

  insert_recipients-campaigns :
      (us : List Unique) (s : Store) → (insert_recipients rt now i us s).campaigns ≡ s.campaigns
  unfolding insert_recipients
  insert_recipients-campaigns [] s = refl
  insert_recipients-campaigns (u ∷ us) s =
      insert_recipients-campaigns us _ ∙ insert_recipient-campaigns u s

  -- Of the campaigns it writes the total of the one.
  abbrev pub with_total : ℕ → Campaign → Campaign
  with_total n c = record c { total_recipients = n; updated_at = now }

  pub generate_recipients-campaigns :
      (s : Store)
      → (generate_recipients rt now i s).1.campaigns
        ≡ update_where
            (λ c. c.id == i)
            (with_total (generate_recipients rt now i s).0.total)
            s.campaigns
  unfolding generate_recipients
  generate_recipients-campaigns s = rw (insert_recipients-campaigns (sendable_for rt i s) s) refl

  pub generate_recipients-AllHaveStatus :
      (j : ℕ) (st : CampaignStatus) (s : Store)
      → AllHaveStatus j st s.campaigns
      → AllHaveStatus j st (generate_recipients rt now i s).1.campaigns
  unfolding generate_recipients
  generate_recipients-AllHaveStatus j st s h =
      update_keeps_status j st (λ c. c.id == i) _ _ (λ c. refl) (λ c. refl)
        (rw (insert_recipients-campaigns (sendable_for rt i s) s) h)

  pub generate_recipients-find :
      (j : ℕ) (s : Store)
      → is_some (find_campaign j (generate_recipients rt now i s).1.campaigns)
        ≡ is_some (find_campaign j s.campaigns)
  unfolding generate_recipients
  generate_recipients-find j s =
      is_some-find-update j (λ c. c.id == i) _ _ (λ c. refl)
      ∙ ap (λ cs. is_some (find_campaign j cs))
          (insert_recipients-campaigns (sendable_for rt i s) s)

-- ===== src/Send/Ready.antt =====
-- What the checks before a sending let through.
use ai_email_broadcast_hw.Base.{
  ℕ, ◌≡◌, inl, inr, Bool, true, false, some, List, String, arith, Option-cases,
}
use ai_email_broadcast_hw.Api.{ok, refused}
use ai_email_broadcast_hw.Store.{Store, Campaign, find_campaign}
use ai_email_broadcast_hw.Store.Status.{CampaignStatus, campaign_is→eq}
use ai_email_broadcast_hw.Send.{is_blank_text, ready_to_send, find_draft}

-- The campaign is there, a DRAFT with a subject and a body.
pub record IsReadyDraft (i : ℕ) (s : Store) (c : Campaign) : Type 0 where
  pub is_there : find_campaign i s.campaigns ≡ some c
  pub is_draft : c.status ≡ CampaignStatus.draft
  pub has_subject : is_blank_text c.subject ≡ false
  pub has_body : is_blank_text c.compiled_html ≡ false

module _ (i : ℕ) (s : Store) where
  pub find_draft-ok :
      (c : Campaign)
      → find_draft i s ≡ ok c
      → (find_campaign i s.campaigns ≡ some c) × (c.status ≡ CampaignStatus.draft)
  unfolding find_draft
  find_draft-ok c e = elim (Option-cases (find_campaign i s.campaigns)) [
    | inl h ↦ absurd (ground arith)
    | inr (d, h) ↦
        let st = campaign_is→eq d.status CampaignStatus.draft in
        (ground (arith, st), ground (arith, st))
  ]

  pub find_draft-refused :
      (code : ℕ) (key : String) (c : Campaign)
      → find_draft i s ≡ refused code key
      → ¬ IsReadyDraft i s c
  unfolding find_draft
  find_draft-refused code key c e r = ground (arith, r.is_there, r.is_draft)

pub ready_to_send-ok :
    (has_smtp : Bool) (c : Campaign) (s : Store) (lists : List ℕ)
    → ready_to_send has_smtp c s ≡ ok lists
    → (is_blank_text c.subject ≡ false)
      × (is_blank_text c.compiled_html ≡ false)
      × (has_smtp ≡ true)
unfolding ready_to_send
ready_to_send-ok has_smtp c s lists e = (ground arith, ground arith, ground arith)

pub ready_to_send-refused :
    (has_smtp : Bool) (i code : ℕ) (key : String) (c : Campaign) (s : Store)
    → ready_to_send has_smtp c s ≡ refused code key
    → IsReadyDraft i s c
    → has_smtp ≡ false
unfolding ready_to_send
ready_to_send-refused has_smtp i code key c s e r = ground (arith, r.has_subject, r.has_body)

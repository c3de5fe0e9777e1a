-- ===== src/Edit/Tests.antt =====
-- A draft is given a new subject and body, by a request that is refused in the end: the lists that it
-- names are no uuids, but that is found out after the write.
use ai_email_broadcast_hw.Base.{ℕ, ◌≡◌, refl, true, none, some, List, [], ◌∷◌, map, Text}
use ai_email_broadcast_hw.Api.{refused}
use ai_email_broadcast_hw.Input.{undefined, text, array}
use ai_email_broadcast_hw.Store.{Store, Campaign, find_campaign}
use ai_email_broadcast_hw.Store.Status.{CampaignStatus}
use ai_email_broadcast_hw.Samples.{store, campaign}
use ai_email_broadcast_hw.Edit.{Edit, edit_campaign}
use ai_email_broadcast_hw.Edit.Laws.{IsEdited, edit_campaign-IsEdited}

abbrev drafted : Store
drafted = record store { campaigns = campaign 3 CampaignStatus.draft none ∷ [] }

abbrev hello : Text
hello = b'h' ∷ b'i' ∷ []

abbrev edit : Edit
edit = record {
  name = undefined;
  subject = text hello;
  from_name = undefined;
  from_email = undefined;
  reply_to = undefined;
  content_html = text hello;
  text_body = undefined;
  text_body_is_custom = none;
  list_ids = array (hello ∷ []);
}

-- A sanitizer and a conversion to text, for the test.
abbrev sanitize : Text → Text
sanitize t = b'!' ∷ t

abbrev first_unit : Text → ℕ
first_unit [] = 0
first_unit (c ∷ cs) = c

abbrev subjects : List Campaign → List Text
subjects cs = map (λ (c : Campaign). c.subject) cs

refused_but_written :
    let (r, s) =
      edit_campaign sanitize (λ t. t) first_unit (λ i. true) 700 (λ s. s) (some edit) 3 drafted in
    (r ≡ refused 400 "err.field.badId") × (subjects s.campaigns ≡ hello ∷ [])
unfolding edit_campaign find_campaign
refused_but_written = (refl, refl)

edit_campaign-IsEdited_example :
    IsEdited sanitize
      (λ t. t)
      3
      drafted
      drafted
      (edit_campaign sanitize (λ t. t) first_unit (λ i. true) 700 (λ s. s) (some edit) 3 drafted)
edit_campaign-IsEdited_example =
    edit_campaign-IsEdited sanitize (λ t. t) first_unit (λ i. true) 700 (λ s. s) (some edit) 3
      drafted

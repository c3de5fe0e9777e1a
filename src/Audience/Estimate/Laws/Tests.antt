-- ===== src/Audience/Estimate/Laws/Tests.antt =====
-- Ann and Bob are in both lists of a campaign, and Bob is suppressed.
use ai_email_broadcast_hw.Base.{◌≡◌, refl, some, [], ◌∷◌, text_eq}
use ai_email_broadcast_hw.Address.{lower_ascii, normalize_email}
use ai_email_broadcast_hw.Store.{Store}
use ai_email_broadcast_hw.Queue.{is_suppressed}
use ai_email_broadcast_hw.Suppression.{suppress_email}
use ai_email_broadcast_hw.Audience.{is_empty, lists_of, preview_audience}
use ai_email_broadcast_hw.Audience.Estimate.{estimate_recipients}
use ai_email_broadcast_hw.Audience.Estimate.Laws.{estimate_recipients-preview}
use ai_email_broadcast_hw.Samples.{store, runtime, request, contact, ann, bob}

abbrev two_lists : Store
two_lists = record (suppress_email 1000 request store) {
  contacts = contact 1 ann ∷ contact 2 bob ∷ [];
  members =
      record { list_id = 5; contact_id = 1 }
      ∷ record { list_id = 5; contact_id = 2 }
      ∷ record { list_id = 6; contact_id = 1 }
      ∷ [];
  campaign_lists =
      record { campaign_id = 2; list_id = 5 } ∷ record { campaign_id = 2; list_id = 6 } ∷ [];
}

one_is_left : estimate_recipients (2 ∷ []) two_lists 2 ≡ some 1
unfolding estimate_recipients is_suppressed text_eq suppress_email
one_is_left = refl

estimate_recipients-preview_example :
    estimate_recipients (2 ∷ []) two_lists 2
    ≡ some (preview_audience runtime (5 ∷ 6 ∷ []) two_lists).final_recipients
unfolding normalize_email lower_ascii is_empty lists_of
estimate_recipients-preview_example =
    estimate_recipients-preview runtime 2 two_lists
      (record { keyed = refl; addressed = refl }, (record { keyed = refl; addressed = refl }, tt))
      (2 ∷ [])

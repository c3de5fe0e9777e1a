-- ===== src/Audience/Dedupe/Tests.antt =====
-- Ann twice, Bob, and an empty address.
use ai_email_broadcast_hw.Base.{◌≡◌, refl, text_eq, none, List, [], ◌∷◌, Text}
use ai_email_broadcast_hw.Address.{lower_ascii, normalize_email}
use ai_email_broadcast_hw.Audience.{Candidate, dedupe_candidates}
use ai_email_broadcast_hw.Samples.{ann, ann_again, bob}

abbrev candidate : Text → Candidate
candidate email = record {
  contact_id = none;
  email = email;
  first_name = none;
  last_name = none;
  custom_fields = [];
}

abbrev candidates : List Candidate
candidates = candidate ann ∷ candidate ann_again ∷ candidate bob ∷ candidate [] ∷ []

one_duplicate : (dedupe_candidates lower_ascii candidates).duplicates_removed ≡ 1
unfolding dedupe_candidates normalize_email lower_ascii text_eq
one_duplicate = refl

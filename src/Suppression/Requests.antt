-- ===== src/Suppression/Requests.antt =====
-- The requests that change the suppression list: POST and DELETE of src/app/api/suppressions/route.ts, and
-- the public endpoint src/app/api/unsubscribe/[token]/route.ts.
pub mod Refinement
mod Tests
use ai_email_broadcast_hw.Base.{
  ℕ, ◌<◌, Bool, true, false, not, ◌&&◌, ◌||◌, Option, none, some, List, [], ◌∷◌, Text, take,
  if◌then◌else◌,
}
use ai_email_broadcast_hw.Address.{normalize_email}
use ai_email_broadcast_hw.Address.Valid.{is_valid_email}
use ai_email_broadcast_hw.Api.{Response, ok, refused, bad_request}
use ai_email_broadcast_hw.Input.{Value, undefined, null, other, text, ◌>>=◌, str}
use ai_email_broadcast_hw.Store.{Store}
use ai_email_broadcast_hw.Store.Status.{SuppressionReason}
use ai_email_broadcast_hw.Suppression.{SuppressInput, suppress_email, unsubscribe, lift_suppression}

-- `note` where it is a text, cut to 500 characters.
abbrev pub note_of : Value → Option Text
note_of undefined = none
note_of null = none
note_of other = none
note_of (text t) = some (take 500 t)

abbrev pub if_valid : Text → Response Text
unfolding is_valid_email
if_valid t = if is_valid_email t then ok t else bad_request "err.email.invalid"

-- The address of a POST request.
unfoldable pub address_to_add : Value → Response Text
unfolding str if_valid
address_to_add v = str 254 true v >>= if_valid

abbrev pub add_email :
    (Text → Text) → ℕ → Value → Response Text → Store → Response (Unit {0}) × Store
unfolding suppress_email
add_email lower now note (refused code key) s = (refused code key, s)
add_email lower now note (ok t) s = (
  ok tt,
  suppress_email now
      (record {
        email = t;
        email_normalized = normalize_email lower t;
        reason = SuppressionReason.manual;
        campaign_id = none;
        note = note_of note;
      })
      s,
)

abbrev pub remove_email : (Text → Text) → Response Text → Store → Response (Unit {0}) × Store
unfolding lift_suppression
remove_email lower (refused code key) s = (refused code key, s)
remove_email lower (ok t) s = (ok tt, lift_suppression lower t s)

pub data Request : Type 0 where
  add : (email note : Value) → Request
  remove : (email : Value) → Request
  follow : (token : Text) → Request

-- What a request leaves of the store.
unfoldable pub serve : (Text → Text) → ℕ → Request → Store → Store
unfolding add_email remove_email address_to_add unsubscribe str
serve lower now (add email note) s = (add_email lower now note (address_to_add email) s).1
serve lower now (remove email) s = (remove_email lower (str 254 true email) s).1
serve lower now (follow token) s = (unsubscribe now token s).1

unfoldable pub run : (Text → Text) → List (ℕ × Request) → Store → Store
unfolding serve
run lower [] s = s
run lower ((now, r) ∷ rs) s = run lower rs (serve lower now r s)

-- ===== src/Suppression/Requests/Tests.antt =====
-- "a@x.co" is added and removed, and something that is no address is refused.
use ai_email_broadcast_hw.Base.{ℕ, ◌≡◌, refl, false, true, List, [], ◌∷◌, Text, text_eq}
use ai_email_broadcast_hw.Address.{lower_ascii, normalize_email}
use ai_email_broadcast_hw.Input.{undefined, text}
use ai_email_broadcast_hw.Queue.{is_suppressed}
use ai_email_broadcast_hw.Suppression.Requests.{Request, add, remove, follow, run}
use ai_email_broadcast_hw.Suppression.Requests.Refinement.{owner, listed, run-listed}
use ai_email_broadcast_hw.Samples.{store}

abbrev anna : Text
anna = b'a' ∷ b'@' ∷ b'x' ∷ b'.' ∷ b'c' ∷ b'o' ∷ []

abbrev requests : List (ℕ × Request)
requests =
    (1000, add (text (32 ∷ anna)) undefined)
    ∷ (1100, add (text (b'a' ∷ [])) undefined)
    ∷ (1200, follow (b't' ∷ []))
    ∷ []

is_added : is_suppressed (run lower_ascii requests store).suppressions anna ≡ true
unfolding run is_suppressed normalize_email lower_ascii text_eq
is_added = refl

is_removed :
    is_suppressed
      (run lower_ascii
        ((1300, remove (text anna)) ∷ [])
        (run lower_ascii requests store)).suppressions
      anna
    ≡ false
unfolding run is_suppressed normalize_email lower_ascii text_eq
is_removed = refl

run-listed_example :
    is_suppressed (run lower_ascii requests store).suppressions anna
    ≡ listed lower_ascii (owner store.recipients) requests (is_suppressed store.suppressions) anna
run-listed_example = run-listed lower_ascii requests store anna

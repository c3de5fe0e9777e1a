-- ===== src/Activation/Failure.antt =====
-- Errors that mean a lost database connection, `isConnectionFailure` of
-- src/lib/campaign-activation.ts. A thrown value has a code, a cause, and a list of inner errors;
-- what is no object has none of them.
use ai_email_broadcast_hw.Base.{
  ℕ, zero, suc, Bool, false, ◌||◌, Option, none, some, List, [], ◌∷◌, String, any,
}
use text.Mathlib.Text.{◌==◌ as str_eq}

mutual
  pub data Failure : Type 0 where
    failure : Option String → Cause → Failures → Failure

  pub data Cause : Type 0 where
    no_cause : Cause
    caused_by : Failure → Cause

  pub data Failures : Type 0 where
    end : Failures
    also : Failure → Failures → Failures

abbrev pub connection_error_codes : List String
connection_error_codes =
    "ECONNREFUSED" ∷ "ECONNRESET" ∷ "ETIMEDOUT" ∷ "EPIPE" ∷ "ENOTFOUND" ∷ "EAI_AGAIN"
    ∷ "CONNECT_TIMEOUT" ∷ "CONNECTION_CLOSED" ∷ "CONNECTION_DESTROYED" ∷ "CONNECTION_ENDED"
    ∷ "57P01" ∷ "57P02" ∷ "57P03" ∷ "08000" ∷ "08001" ∷ "08003" ∷ "08004" ∷ "08006" ∷ "53300" ∷ []

unfoldable pub is_connection_code : Option String → Bool
is_connection_code none = false
is_connection_code (some code) = any (str_eq code) connection_error_codes

-- The loop's four rounds look at an error and its causes; inner errors start a loop of their own.
unfoldable mutual
  unfolding is_connection_code

  pub lost_within : Failure → ℕ → Bool
  lost_within (failure code cause errors) zero = false
  lost_within (failure code cause errors) (suc depth) =
      is_connection_code code || (any_lost errors || cause_lost cause depth)

  pub cause_lost : Cause → ℕ → Bool
  cause_lost no_cause depth = false
  cause_lost (caused_by e) depth = lost_within e depth

  pub any_lost : Failures → Bool
  any_lost end = false
  any_lost (also e es) = lost_within e 4 || any_lost es

unfoldable pub is_connection_failure : Failure → Bool
unfolding lost_within cause_lost any_lost
is_connection_failure e = lost_within e 4

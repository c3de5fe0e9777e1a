-- ===== src/Api.antt =====
-- The outcome of an API route, src/lib/api.ts: an answer, or the refusal that `badRequest`,
-- `notFound` or `conflict` throws, with its HTTP status and the key of its message.
use ai_email_broadcast_hw.Base.{ℕ, String}

pub data Response (A : Type 0) : Type 0 where
  ok : A → Response A
  refused : ℕ → String → Response A

abbrev pub bad_request : {A : Type 0} → String → Response A
bad_request key = refused 400 key

abbrev pub not_found : {A : Type 0} → String → Response A
not_found key = refused 404 key

abbrev pub conflict : {A : Type 0} → String → Response A
conflict key = refused 409 key

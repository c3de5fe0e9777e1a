-- ===== src/Activation/Cycle/Bounds.antt =====
-- What one scheduler cycle may do at the most.
use ai_email_broadcast_hw.Base.{
  ℕ, ◌+◌, ◌≤◌, ◌≡◌, Option, none, some, List, [], ◌∷◌, ◌++◌, length, All, map,
}
use ai_email_broadcast_hw.Store.{Store, Campaign}
use ai_email_broadcast_hw.Activation.Failure.{Failure}
use ai_email_broadcast_hw.Activation.Cycle.Records.{CameDue, Tallied}
use ai_email_broadcast_hw.Activation.Cycle.{ActivationRecord, World, Cycle, started}

abbrev campaign_of : ActivationRecord → ℕ
campaign_of x = x.campaign_id

abbrev reverse : List ℕ → List ℕ
reverse [] = []
reverse (i ∷ is) = reverse is ++ i ∷ []

-- The result of a cycle with `left` candidates of its page to go: it starts no more campaigns than
-- its limit, and its records are those of the campaigns that it tried, in their order, each of
-- which had come due, with the counts of their outcomes.
pub record Bounded (w : World) (limit left : ℕ) (k : Cycle) : Type 0 where
  pub within : started k.result + left ≤ limit
  pub recorded : map campaign_of k.result.records ≡ reverse k.tried
  pub were_due : All (λ x. CameDue w (length k.tried) x.scheduled_at) k.result.records
  pub tallied : Tallied k.result
  pub found_due : length k.tried + left ≤ k.result.due

AllDue : World → ℕ → List Campaign → Type 0
AllDue w most cs = All (λ c. CameDue w most c.scheduled_at) cs

abbrev IsBounded : World → ℕ → Option Cycle → Type 0
IsBounded w limit none = Unit
IsBounded w limit (some k) = Bounded w limit 0 k

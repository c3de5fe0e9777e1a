-- ===== src/Audience/Estimate.antt =====
-- `estimateRecipients`: the size of each campaign's audience by one grouped query,
-- src/lib/campaign-recipients.ts.
pub mod Distinct
pub mod Join
pub mod Laws
use ai_email_broadcast_hw.Base.{
  ℕ, suc, Bool, true, false, not, Option, none, some, List, [], ◌∷◌, ◌++◌, map, Text, ◌==◌,
  if◌then◌else◌, any, select, mem_id, text_eq,
}
use ai_email_broadcast_hw.Store.{Store, Contact, Membership, CampaignList}
use ai_email_broadcast_hw.Queue.{is_suppressed}
use ai_email_broadcast_hw.Audience.{find_contact, members_of}

-- `count(DISTINCT ...)`.
unfoldable pub count_distinct : List Text → ℕ
count_distinct [] = 0
count_distinct (t ∷ ts) =
    let rest = count_distinct ts in if any (λ u. text_eq u t) ts then rest else suc rest

-- `campaign_lists INNER JOIN contact_list_members INNER JOIN contacts`, one row a membership.
unfoldable pub joined : List CampaignList → List Contact → List Membership → List Contact
unfolding find_contact members_of
joined [] contacts members = []
joined (l ∷ ls) contacts members =
    members_of (l.list_id ∷ []) contacts members ++ joined ls contacts members

-- One group of the query.
unfoldable pub estimate_for : ℕ → Store → ℕ
unfolding count_distinct joined is_suppressed
estimate_for i s = count_distinct (
    map (λ (c : Contact). c.email_normalized)
      (select (λ c. not (is_suppressed s.suppressions c.email_normalized))
        (joined (select (λ l. l.campaign_id == i) s.campaign_lists) s.contacts s.members)))

-- What the map has under a campaign's id; a campaign with no group is estimated at 0.
unfoldable pub estimate_recipients : List ℕ → Store → ℕ → Option ℕ
unfolding estimate_for
estimate_recipients ids s i = if mem_id i ids then some (estimate_for i s) else none

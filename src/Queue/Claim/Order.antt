-- ===== src/Queue/Claim/Order.antt =====
-- The claim takes the rows that have waited longest.
use ai_email_broadcast_hw.Base.{
  ℕ, zero, suc, ◌+◌, ◌≡◌, ◌∙◌, Bool, List, [], ◌∷◌, String, arith, count_where, take, drop, mem_id,
}
use ai_email_broadcast_hw.Base.Sort.{
  sort, count_where-sort, IsSorted-sort, Precede, take-Precede-drop,
}
use ai_email_broadcast_hw.Base.Keys.{Distinct}
use ai_email_broadcast_hw.Store.{Store, Recipient}
use ai_email_broadcast_hw.Queue.{Config, before, due_rows}
use ai_email_broadcast_hw.Queue.Claim.{
  ids, claimable, before_total, before_trans, claimed_ids, mem_id-claimed_ids,
}

count_where-take-drop :
    (p : Recipient → Bool) (n : ℕ) (rs : List Recipient)
    → count_where p (take n rs) + count_where p (drop n rs) ≡ count_where p rs
count_where-take-drop p zero rs = omega arith
count_where-take-drop p (suc n) [] = omega arith
count_where-take-drop p (suc n) (r ∷ rs) = ground (arith, count_where-take-drop p n rs)

-- The claimable rows fall into those that are claimed and those that are left, and each claimed row
-- comes at or before each row that is left, by next attempt and then by creation.
pub claim_oldest_first :
    (cfg : Config) (worker : String) (limit now : ℕ) (locked : ℕ → Bool) (s : Store)
    → Distinct (ids s.recipients)
    → (kept : List Recipient) × (left : List Recipient) × ((i : ℕ)
        → mem_id i (claimed_ids cfg worker limit now locked s) ≡ mem_id i (ids kept))
      × ((p : Recipient → Bool)
          → count_where p kept + count_where p left ≡ count_where p (claimable now locked s))
      × Precede before kept left
unfolding due_rows
claim_oldest_first cfg worker limit now locked s keys =
    let sorted = sort before (claimable now locked s) in
    (
      take limit sorted,
      drop limit sorted,
      mem_id-claimed_ids cfg worker limit now locked s keys,
      λ p.
          count_where-take-drop p limit sorted ∙ count_where-sort before p (claimable now locked s),
      take-Precede-drop before limit sorted
          (IsSorted-sort before before_total before_trans (claimable now locked s)),
    )

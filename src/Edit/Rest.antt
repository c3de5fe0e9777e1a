-- ===== src/Edit/Rest.antt =====
-- Choosing the lists of a campaign anew leaves all else as it was.
use ai_email_broadcast_hw.Base.{
  ℕ, ◌≡◌, refl, ap, ◌∙◌, Bool, not, List, [], ◌∷◌, ◌++◌, map, Text, arith, ◌==◌, if_both, select,
}
use mathlib.Core.List.{append-nil}
use ai_email_broadcast_hw.Api.{Response}
use ai_email_broadcast_hw.Input.{ListValue, absent, no_array, array, uuid_list}
use ai_email_broadcast_hw.Store.{Store, CampaignList}
use ai_email_broadcast_hw.Send.Laws.{and_then-cases}
use ai_email_broadcast_hw.Edit.{insert_lists, insert_if_any, replace_lists}

select_twice : {A : Type 0} (q : A → Bool) (xs : List A) → select q (select q xs) ≡ select q xs
select_twice q [] = refl
select_twice q (x ∷ xs) = ground (arith, select_twice q xs)

select-append :
    {A : Type 0} (q : A → Bool) (xs ys : List A) → select q (xs ++ ys) ≡ select q xs ++ select q ys
select-append q [] ys = refl
select-append q (x ∷ xs) ys = ground (arith, select-append q xs ys)

abbrev pub of_others : ℕ → CampaignList → Bool
of_others i l = not (l.campaign_id == i)

none_of_others :
    (i : ℕ) (ids : List ℕ)
    → select (of_others i) (map (λ j. record { campaign_id = i; list_id = j }) ids) ≡ []
none_of_others i [] = refl
none_of_others i (j ∷ js) = ground (arith, none_of_others i js)

-- The lists of the other campaigns, and the other tables, are as they were.
pub record KeepsRest (i : ℕ) (s t : Store) : Type 0 where
  pub campaigns : t.campaigns ≡ s.campaigns
  pub recipients : t.recipients ≡ s.recipients
  pub contacts : t.contacts ≡ s.contacts
  pub members : t.members ≡ s.members
  pub suppressions : t.suppressions ≡ s.suppressions
  pub lists : select (of_others i) t.campaign_lists ≡ select (of_others i) s.campaign_lists

module _ (uuid : Text → ℕ) (list_exists : ℕ → Bool) (i : ℕ) (s : Store) where
  emptied : Store
  emptied = record s { campaign_lists = select (of_others i) s.campaign_lists }

  emptied-KeepsRest : KeepsRest i s emptied
  unfolding emptied
  emptied-KeepsRest = record {
    campaigns = refl;
    recipients = refl;
    contacts = refl;
    members = refl;
    suppressions = refl;
    lists = select_twice (of_others i) s.campaign_lists;
  }

  filled-KeepsRest :
      (ids : List ℕ)
      → KeepsRest i s (record emptied {
        campaign_lists =
            select (of_others i) s.campaign_lists
            ++ map (λ j. record { campaign_id = i; list_id = j }) ids;
      })
  unfolding emptied
  filled-KeepsRest ids = record {
    campaigns = refl;
    recipients = refl;
    contacts = refl;
    members = refl;
    suppressions = refl;
    lists =
        select-append (of_others i) (select (of_others i) s.campaign_lists) _
        ∙ ap (λ l. select (of_others i) (select (of_others i) s.campaign_lists) ++ l)
            (none_of_others i ids)
        ∙ append-nil _
        ∙ select_twice (of_others i) s.campaign_lists;
  }

  insert_lists-KeepsRest :
      (ids : List ℕ) → KeepsRest i s (insert_lists uuid list_exists i ids emptied).1
  unfolding insert_lists emptied
  insert_lists-KeepsRest ids =
      if_both (λ (x : Response (Unit {0}) × Store). KeepsRest i s x.1) _ emptied-KeepsRest
        (filled-KeepsRest ids)

  insert_if_any-KeepsRest :
      (ids : List ℕ) → KeepsRest i s (insert_if_any uuid list_exists i ids emptied).1
  unfolding insert_if_any emptied
  insert_if_any-KeepsRest [] = emptied-KeepsRest
  insert_if_any-KeepsRest (j ∷ js) = insert_lists-KeepsRest (j ∷ js)

  KeepsRest-refl : KeepsRest i s s
  KeepsRest-refl = record {
    campaigns = refl;
    recipients = refl;
    contacts = refl;
    members = refl;
    suppressions = refl;
    lists = refl;
  }

  pub replace_lists-KeepsRest :
      (v : ListValue) → KeepsRest i s (replace_lists uuid list_exists i v s).1
  unfolding replace_lists emptied
  replace_lists-KeepsRest absent = KeepsRest-refl
  replace_lists-KeepsRest no_array = KeepsRest-refl
  replace_lists-KeepsRest (array ids) =
      and_then-cases (λ x. KeepsRest i s x.1) (uuid_list (array ids)) s _
        (λ code key. KeepsRest-refl) (λ us e. insert_if_any-KeepsRest (map uuid us))

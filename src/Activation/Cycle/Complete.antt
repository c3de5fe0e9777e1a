-- ===== src/Activation/Cycle/Complete.antt =====
-- A scheduler cycle that nothing disturbs starts (or closes) every campaign whose time has come.
use ai_email_broadcast_hw.Base.{
  ℕ, zero, suc, ◌+◌, ◌-◌, ◌≤◌, ◌<◌, ◌≡◌, refl, sym, ap, ◌⊎◌, inl, inr, Bool, true, false, not, ◌&&◌,
  ◌||◌, Option, none, some, List, [], ◌∷◌, arith, ltb, ◌==◌, All, All-zip, All-true,
  All-update_cases, All-of_count_zero, Option-cases, length, length-take, length-select, select,
  mem_id, is_some, if_both, if_cases, subst,
}
use ai_email_broadcast_hw.Base.Sort.{sort, length-sort}
use ai_email_broadcast_hw.Store.{Store, Campaign}
use ai_email_broadcast_hw.Store.Status.{CampaignStatus, campaign_is}
use ai_email_broadcast_hw.Store.Lookup.{none_of_first}
use ai_email_broadcast_hw.Audience.{Runtime, generate_recipients}
use ai_email_broadcast_hw.Audience.Statuses.{generate_recipients-campaigns}
use ai_email_broadcast_hw.Campaign.{close_campaign}
use ai_email_broadcast_hw.Activation.Handover.{taken_over}
use ai_email_broadcast_hw.Activation.{
  from_scheduled, QueueResult, is_ready, queue_campaign, cancel_empty_campaign, claim_campaign,
  enqueue_campaign,
}
use ai_email_broadcast_hw.Activation.Failure.{Failure}
use ai_email_broadcast_hw.Activation.Cycle.Ids.{campaign_ids}
use ai_email_broadcast_hw.Activation.Cycle.Ends.{Steady, activate_due_campaigns-ends}
use ai_email_broadcast_hw.Activation.Cycle.{
  ActivationResult, Moment, World, Cycle, started, due_page, conclude, attempt, activate_one,
  after_read, activate_page, activate_rounds, activate_due_campaigns, sooner,
}

-- A statement runs in time and alone, at this instant of the scheduler's clock, and does not throw.
pub record Calm (clock : ℕ) (m : Moment) : Type 0 where
  pub in_time : m.late ≡ false
  pub at : m.clock ≡ clock
  pub unlocked : (i : ℕ) → m.locked i ≡ false
  pub alone : (s : Store) → m.meanwhile s ≡ s
  pub works : m.throws ≡ none
  pub closes : m.close_throws ≡ none

pub record IsCalm (clock : ℕ) (w : World) : Type 0 where
  pub pages : (n : ℕ) → Calm clock (w.page_moment n)
  pub tries : (n : ℕ) → Calm clock (w.try_moment n)

module _ (clock : ℕ) where
  -- The campaigns of these ids do not wait for the scheduler any more.
  abbrev pub Done : List ℕ → List Campaign → Type 0
  Done tried cs = All (λ c. mem_id c.id tried ≡ true → is_ready from_scheduled clock c ≡ false) cs

  ready_closed :
      (now : ℕ) (c : Campaign) → is_ready from_scheduled clock (close_campaign now c) ≡ false
  unfolding is_ready close_campaign
  ready_closed now c = refl

  cancel_empty-Done :
      (now i : ℕ) (tried : List ℕ) (s : Store)
      → Done tried s.campaigns
      → Done (i ∷ tried) (cancel_empty_campaign now i s).campaigns
  unfolding cancel_empty_campaign is_ready
  cancel_empty-Done now i tried s h =
      All-update_cases _ _ (λ c. c.id == i && campaign_is c.status CampaignStatus.scheduled)
        (close_campaign now) s.campaigns (λ c e k m. ready_closed now c)
        (λ c e k m. ground (arith, k)) h

  handed_over-Done :
      (rt : Runtime) (now i : ℕ) (tried : List ℕ) (s : Store)
      → Done tried s.campaigns
      → Done (i ∷ tried) (generate_recipients rt now i (taken_over now i s)).1.campaigns
  unfolding enqueue_campaign is_ready
  handed_over-Done rt now i tried s h =
      rw (generate_recipients-campaigns rt now i (taken_over now i s)) (
        All-update_cases _ _ (λ c. c.id == i) _ _ (λ c e k. k) (λ c e k. k)
          (All-update_cases _ _ (λ c. c.id == i) (enqueue_campaign now) s.campaigns
            (λ c e k m. refl) (λ c e k m. ground (arith, k)) h))

  skipped-Done :
      (i : ℕ) (locked : ℕ → Bool) (tried : List ℕ) (cs : List Campaign)
      → ((j : ℕ) → locked j ≡ false)
      → claim_campaign i from_scheduled clock locked cs ≡ none
      → Done tried cs
      → Done (i ∷ tried) cs
  unfolding claim_campaign
  skipped-Done i locked tried cs free e h =
      All-zip _ _ _ cs (λ c a b m. ground (arith, a, b, free c.id)) h (none_of_first _ cs e)

  -- The connection is there, and what was tried is done.
  abbrev pub Settled : List ℕ → ActivationResult × Store → Type 0
  Settled tried (r, s) = (r.connection_lost ≡ false) × Done tried s.campaigns

  conclude-Settled :
      (rt : Runtime) (m : Moment) (c : Campaign) (r : ActivationResult) (tried : List ℕ) (s : Store)
      → Calm clock m
      → Settled tried (r, s)
      → Settled
          (c.id ∷ tried)
          (conclude m c r (queue_campaign rt m.now clock m.locked c.id from_scheduled s))
  unfolding queue_campaign conclude
  conclude-Settled rt m c r tried s calm (l, h) =
      elim (Option-cases (claim_campaign c.id from_scheduled clock m.locked s.campaigns)) [
        | inl e ↦
            rw (e, queue_campaign, conclude)
              (l, skipped-Done c.id m.locked tried s.campaigns calm.unlocked e h)
        | inr (d, e) ↦
            rw (e, queue_campaign)
              (if_both (λ (x : QueueResult × Store). Settled (c.id ∷ tried) (conclude m c r x))
                ((generate_recipients rt m.now c.id (taken_over m.now c.id s)).0.total == 0)
                (rw (calm.closes, conclude) (l, cancel_empty-Done m.now c.id tried s h))
                (l, handed_over-Done rt m.now c.id tried s h))
      ]

  attempt-Settled :
      (rt : Runtime) (m : Moment) (c : Campaign) (r : ActivationResult) (tried : List ℕ) (s : Store)
      → Calm clock m
      → Settled tried (r, s)
      → Settled (c.id ∷ tried) (attempt rt m c r s)
  unfolding attempt
  attempt-Settled rt m c r tried s calm h =
      rw (calm.works, attempt)
        (subst
          (λ x.
            Settled (c.id ∷ tried)
              (conclude m c r (queue_campaign rt m.now x m.locked c.id from_scheduled s)))
          (sym calm.at) (conclude-Settled rt m c r tried s calm h))

  abbrev pub IsSettled : Cycle → Type 0
  IsSettled k = Settled k.tried (k.result, k.store)

  activate_one-Settled :
      (rt : Runtime) (m : Moment) (c : Campaign) (k : Cycle)
      → Calm clock m
      → IsSettled k
      → IsSettled (activate_one rt m c k)
  unfolding activate_one
  activate_one-Settled rt m c k calm h =
      attempt-Settled rt m c k.result k.tried (m.meanwhile k.store) calm
        (h.0, subst (λ s. Done k.tried s.campaigns) (sym (calm.alone k.store)) h.1)

  activate_page-Settled :
      (rt : Runtime) (w : World) (cs : List Campaign) (k : Cycle)
      → IsCalm clock w
      → IsSettled k
      → IsSettled (activate_page rt w cs k)
  unfolding activate_page
  activate_page-Settled rt w [] k calm h = h
  activate_page-Settled rt w (c ∷ cs) k calm h =
      let m = w.try_moment (length k.tried) in
      let one = activate_one-Settled rt m c k (calm.tries (length k.tried)) h in
      if_both IsSettled m.late h (
        if_both IsSettled (activate_one rt m c k).result.connection_lost one
          (activate_page-Settled rt w cs (activate_one rt m c k) calm one))

  -- An empty page: nothing waits.
  nothing_due :
      (tried : List ℕ) (limit : ℕ) (s : Store)
      → 0 < limit
      → length (due_page clock tried limit s) ≡ 0
      → Done tried s.campaigns
      → All (λ c. is_ready from_scheduled clock c ≡ false) s.campaigns
  unfolding due_page
  nothing_due tried limit s h e d =
      let p = λ (c : Campaign). is_ready from_scheduled clock c && not (mem_id c.id tried) in
      All-zip _ _ _ s.campaigns (λ c a b. ground (arith, a, b)) d
        (All-of_count_zero p s.campaigns (
          omega (
            arith,
            length-take limit (sort sooner (select p s.campaigns)),
            length-sort sooner (select p s.campaigns),
            length-select p s.campaigns,
          )))

  -- How an undisturbed cycle ends: its limit is used up, or nothing waits.
  abbrev pub Finished : ℕ → Option Cycle → Type 0
  Finished limit none = Unit
  Finished limit (some k) =
      (limit ≤ started k.result)
      ⊎ All (λ c. is_ready from_scheduled clock c ≡ false) k.store.campaigns

  after_read-Finished :
      (limit : ℕ) (throws : Option Failure) (page : List Campaign) (k seen : Cycle)
      (rest : Option Cycle)
      → throws ≡ none
      → (length page ≡ 0 → Finished limit (some seen))
      → Finished limit rest
      → Finished limit (after_read throws page k seen rest)
  unfolding after_read
  after_read-Finished limit (some e) page k seen rest t h g = cc
  after_read-Finished limit none [] k seen rest t h g = h refl
  after_read-Finished limit none (c ∷ cs) k seen rest t h g = g

  activate_rounds-Finished :
      (rt : Runtime) (w : World) (limit fuel : ℕ) (k : Cycle)
      → IsCalm clock w
      → IsSettled k
      → Finished limit (activate_rounds rt w limit fuel k)
  unfolding activate_rounds
  activate_rounds-Finished rt w limit zero k calm h = tt
  activate_rounds-Finished rt w limit (suc fuel) k calm h =
      let m = w.page_moment (length k.tried) in
      let peace = calm.pages (length k.tried) in
      let s = m.meanwhile k.store in
      let page = due_page m.clock k.tried (limit - started k.result) s in
      let seen = record k {
        result = record k.result { due = k.result.due + length page };
        store = s;
      } in
      let kept = subst (λ s. Done k.tried s.campaigns) (sym (peace.alone k.store)) h.1 in
      let rest =
        activate_rounds-Finished rt w limit fuel (activate_page rt w page seen) calm
          (activate_page-Settled rt w page seen calm (h.0, kept)) in
      if_cases (Finished limit) (not (ltb (started k.result) limit) || k.result.connection_lost)
        (λ t. inl (ground (arith, h.0)))
        (λ t.
          if_cases (Finished limit) m.late (λ l. absurd (ground (arith, peace.in_time)))
            (λ l.
              after_read-Finished limit m.throws page (record k { store = s }) seen _ peace.works
                (λ e. inr (
                  nothing_due k.tried (limit - started k.result) s (ground arith)
                    (subst (λ x. length (due_page x k.tried (limit - started k.result) s) ≡ 0)
                      peace.at e)
                    kept))
                rest))

Steady-of_calm : (clock : ℕ) (w : World) → IsCalm clock w → Steady w
Steady-of_calm clock w calm = record {
  page_ids = λ n s. ap campaign_ids ((calm.pages n).alone s);
  try_ids = λ n s. ap campaign_ids ((calm.tries n).alone s);
  still_late = λ n l. (calm.tries n).in_time;
}

-- A cycle that nothing disturbs (no deadline, no lock, no error, no other writer, the clock at one
-- instant) ends, and every campaign whose time has come has left SCHEDULED, or the cycle's limit is
-- used up; one round a campaign and one more are fuel enough.
pub activate_due_campaigns_complete :
    (rt : Runtime) (w : World) (clock limit fuel : ℕ) (s : Store)
    → IsCalm clock w
    → length s.campaigns < fuel
    → (k : Cycle) × (activate_due_campaigns rt w limit fuel s ≡ some k)
      × ((limit ≤ started k.result)
          ⊎ All (λ c. is_ready from_scheduled clock c ≡ false) k.store.campaigns)
unfolding activate_due_campaigns
activate_due_campaigns_complete rt w clock limit fuel s calm h =
    by_answer (activate_due_campaigns rt w limit fuel s)
      (activate_due_campaigns-ends rt w limit fuel s (Steady-of_calm clock w calm) h)
      (activate_rounds-Finished clock rt w limit fuel _ calm
        (refl, All-true _ s.campaigns (λ c m. absurd (cc))))
  where
    by_answer :
        (o : Option Cycle)
        → is_some o ≡ true
        → Finished clock limit o
        → (k : Cycle) × (o ≡ some k)
          × ((limit ≤ started k.result)
              ⊎ All (λ c. is_ready from_scheduled clock c ≡ false) k.store.campaigns)
    by_answer none e f = cc
    by_answer (some k) e f = (k, refl, f)

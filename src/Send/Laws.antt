-- ===== src/Send/Laws.antt =====
-- A draft leaves the editor once, with a queue, or not at all.
use ai_email_broadcast_hw.Base.{
  ℕ, ◌<◌, ◌≡◌, refl, subst, ap, ◌⊎◌, inl, inr, Bool, true, false, ◌&&◌, none, List, String, arith,
  ◌==◌, Impossible, All-mono, Bool-cases, if_both, count_where, is_some, select_none,
}
use ai_email_broadcast_hw.Api.{Response, ok, refused, conflict}
use ai_email_broadcast_hw.Store.{Store, Campaign, find_campaign}
use ai_email_broadcast_hw.Store.Status.{CampaignStatus, campaign_is}
use ai_email_broadcast_hw.Store.Lookup.{first, AllHaveStatus}
use ai_email_broadcast_hw.Audience.{Runtime, GenerateResult, belongs_to, preview_audience}
use ai_email_broadcast_hw.Activation.{
  QueueResult, from_draft, queued, unavailable, no_recipients, claim_campaign, is_ready,
  queue_campaign,
}
use ai_email_broadcast_hw.Activation.Handover.{Outcome, queue_campaign-Outcome}
use ai_email_broadcast_hw.Activation.Race.{update_campaign-none}
use ai_email_broadcast_hw.Send.Ready.{
  IsReadyDraft, find_draft-ok, find_draft-refused, ready_to_send-ok, ready_to_send-refused,
}
use ai_email_broadcast_hw.Send.{
  ready_to_send, find_draft, and_then, answer, hand_over, send_draft, Parsed, write_schedule,
  schedule_for, scheduled, read_time, schedule_draft,
}

-- A refusal, or what the rest makes of the answer.
pub and_then-cases {κ} :
    {A B : Type 0} (P : Response B × Store → Type κ) (r : Response A) (s : Store)
    (f : A → Response B × Store)
    → ((code : ℕ) (key : String) → P (refused code key, s))
    → ((a : A) → r ≡ ok a → P (f a))
    → P (and_then r s f)
and_then-cases P (ok a) s f stops goes = goes a refl
and_then-cases P (refused code key) s f stops goes = stops code key

and_then-elim {κ} :
    {A B : Type 0} (P : Response B × Store → Type κ) (r : Response A) (s : Store)
    (f : A → Response B × Store)
    → ((code : ℕ) (key : String) → P (refused code key, s))
    → ((a : A) → P (f a))
    → P (and_then r s f)
and_then-elim P r s f stops goes = and_then-cases P r s f stops (λ a e. goes a)

and_then-split {κ} :
    {A B : Type 0} (P : Response B × Store → Type κ) (r : Response A) (s : Store)
    (f : A → Response B × Store)
    → ((code : ℕ) (key : String) → r ≡ refused code key → P (refused code key, s))
    → ((a : A) → r ≡ ok a → P (f a))
    → P (and_then r s f)
and_then-split P (ok a) s f stops goes = goes a refl
and_then-split P (refused code key) s f stops goes = stops code key refl

-- What was read cannot be sent: no such draft is ready, or no SMTP is configured.
abbrev pub IsUnready : ℕ → Bool → Store → Type 0
IsUnready i has_smtp s = (c : Campaign) → IsReadyDraft i s c → has_smtp ≡ false

-- What was read can be sent.
abbrev pub IsReady : ℕ → Bool → Store → Type 0
IsReady i has_smtp s = (c : Campaign) × IsReadyDraft i s c × (has_smtp ≡ true)

-- An answer, or a refusal, to a request that read the first store and wrote to the second.
abbrev pub Sent : ℕ → Bool → Store → Store → Response GenerateResult × Store → Type 0
Sent i has_smtp s t (ok g, s') =
    IsReady i has_smtp s
    × AllHaveStatus i CampaignStatus.queued s'.campaigns
    × (is_some (find_campaign i s'.campaigns) ≡ true)
    × (0 < count_where (belongs_to i) s'.recipients)
    × (g.total ≡ count_where (belongs_to i) s'.recipients)
Sent i has_smtp s t (refused code key, s') =
    ((s' ≡ s) × IsUnready i has_smtp s) ⊎ ((s' ≡ t) × IsReady i has_smtp s)

answer-Sent :
    (i : ℕ) (has_smtp : Bool) (s t : Store) (q : QueueResult) (s' : Store)
    → IsReady i has_smtp s
    → Outcome i t q s'
    → Sent i has_smtp s t (answer q, s')
answer-Sent i has_smtp s t (queued at g) s' r (a, b, c, d) = (r, a, b, c, d)
answer-Sent i has_smtp s t unavailable s' r h = inr (h, r)
answer-Sent i has_smtp s t no_recipients s' r h = inr (h, r)

hand_over-Sent :
    (rt : Runtime) (now clock : ℕ) (locked : ℕ → Bool) (i : ℕ) (has_smtp : Bool) (s t : Store)
    → IsReady i has_smtp s
    → Sent i has_smtp s t (hand_over rt now clock locked i t)
unfolding hand_over
hand_over-Sent rt now clock locked i has_smtp s t r =
    answer-Sent i has_smtp s t _ _ r (queue_campaign-Outcome rt now clock locked i from_draft t)

module _ (has_smtp : Bool) (i : ℕ) (s : Store) where
  find_draft-IsUnready :
      (code : ℕ) (key : String) → find_draft i s ≡ refused code key → IsUnready i has_smtp s
  find_draft-IsUnready code key e c r = absurd (find_draft-refused i s code key c e r)

  module _ (c : Campaign) (found : find_draft i s ≡ ok c) where
    ready_to_send-IsUnready :
        (code : ℕ) (key : String)
        → ready_to_send has_smtp c s ≡ refused code key
        → IsUnready i has_smtp s
    ready_to_send-IsUnready code key e d r =
        let there = r.is_there in
        let (found_there, draft) = find_draft-ok i s c found in
        let same : d ≡ c = cc in
        ready_to_send-refused has_smtp i code key c s e (subst (IsReadyDraft i s) same r)

    ready_to_send-IsReady :
        (lists : List ℕ) → ready_to_send has_smtp c s ≡ ok lists → IsReady i has_smtp s
    ready_to_send-IsReady lists e =
        let (there, draft) = find_draft-ok i s c found in
        let (subject, body, smtp) = ready_to_send-ok has_smtp c s lists e in
        (
          c,
          record { is_there = there; is_draft = draft; has_subject = subject; has_body = body },
          smtp,
        )

-- Where a draft is sent, the campaign that was read was a DRAFT with a subject and a body, and SMTP was
-- configured; and now the campaign is QUEUED and has its recipients, as many as the answer says.
-- Where the sending is refused nothing has been written. Either the store is the one that was read, and
-- no such draft stood in it or SMTP was not configured; or such a draft stood in it, SMTP was
-- configured, and the store is what other requests made of it.
pub send_draft-Sent :
    (rt : Runtime) (now clock : ℕ) (locked : ℕ → Bool) (has_smtp : Bool) (meanwhile : Store → Store)
    (i : ℕ) (s : Store)
    → Sent i has_smtp s (meanwhile s) (send_draft rt now clock locked has_smtp meanwhile i s)
unfolding send_draft
send_draft-Sent rt now clock locked has_smtp meanwhile i s =
    and_then-split (Sent i has_smtp s (meanwhile s)) (find_draft i s) s _
      (λ code key e. inl (refl, find_draft-IsUnready has_smtp i s code key e))
      (λ c found.
        and_then-split (Sent i has_smtp s (meanwhile s)) (ready_to_send has_smtp c s) s _
          (λ code key e. inl (refl, ready_to_send-IsUnready has_smtp i s c found code key e))
          (λ lists e.
            hand_over-Sent rt now clock locked i has_smtp s (meanwhile s)
              (ready_to_send-IsReady has_smtp i s c found lists e)))

-- The refused request has written nothing on top of what it met.
abbrev pub Refused : {A : Type 0} → Store → Store → Response A × Store → Type 0
Refused s t (ok a, s') = Impossible
Refused s t (refused code key, s') = (s' ≡ s) ⊎ (s' ≡ t)

not_draft :
    (i : ℕ) (c : Campaign)
    → ((c.id == i) ≡ true → c.status ≡ CampaignStatus.queued)
    → (c.id == i && campaign_is c.status CampaignStatus.draft) ≡ false
not_draft i c k = elim (Bool-cases (c.id == i)) [ inl e ↦ rw (e, k e) refl | inr e ↦ rw e refl ]

none_to_claim :
    (i clock : ℕ) (locked : ℕ → Bool) (cs : List Campaign)
    → AllHaveStatus i CampaignStatus.queued cs
    → claim_campaign i from_draft clock locked cs ≡ none
unfolding claim_campaign is_ready
none_to_claim i clock locked cs h =
    ap first (select_none _ cs (All-mono _ _ cs (λ c k. ground (arith, not_draft i c k)) h))

hand_over_refuses :
    (rt : Runtime) (now clock : ℕ) (locked : ℕ → Bool) (i : ℕ) (t : Store)
    → AllHaveStatus i CampaignStatus.queued t.campaigns
    → hand_over rt now clock locked i t ≡ (conflict "err.campaign.alreadyQueued", t)
unfolding hand_over queue_campaign
hand_over_refuses rt now clock locked i t h =
    rw (none_to_claim i clock locked t.campaigns h, queue_campaign) refl

write_schedule_refuses :
    (now date i : ℕ) (t : Store)
    → AllHaveStatus i CampaignStatus.queued t.campaigns
    → write_schedule now date i t ≡ (conflict "err.campaign.alreadyScheduled", t)
unfolding write_schedule
write_schedule_refuses now date i t h = ap (scheduled date) (
    update_campaign-none i (λ c. campaign_is c.status CampaignStatus.draft) (schedule_for now date)
      t (All-mono _ _ t.campaigns (not_draft i) h))

-- Once another request has queued the campaign between a request's read and its write, neither
-- sending nor scheduling it succeeds, and neither writes anything: whatever both had read, a
-- draft leaves the editor once.
pub departs_once :
    (rt : Runtime) (now clock : ℕ) (locked : ℕ → Bool) (has_smtp : Bool) (parsed : Parsed)
    (meanwhile : Store → Store) (i : ℕ) (s : Store)
    → AllHaveStatus i CampaignStatus.queued (meanwhile s).campaigns
    → Refused s (meanwhile s) (send_draft rt now clock locked has_smtp meanwhile i s)
      × Refused s (meanwhile s) (schedule_draft rt now has_smtp meanwhile parsed i s)
unfolding send_draft schedule_draft
departs_once rt now clock locked has_smtp parsed meanwhile i s h = (
  and_then-elim (Refused s (meanwhile s)) (find_draft i s) s _ (λ code key. inl refl)
      (λ c.
        and_then-elim (Refused s (meanwhile s)) (ready_to_send has_smtp c s) s _
          (λ code key. inl refl)
          (λ lists. rw (hand_over_refuses rt now clock locked i (meanwhile s) h) (inr refl))),
  and_then-elim (Refused s (meanwhile s)) (find_draft i s) s _ (λ code key. inl refl)
      (λ c.
        and_then-elim (Refused s (meanwhile s)) (read_time parsed) s _ (λ code key. inl refl)
          (λ date.
            and_then-elim (Refused s (meanwhile s)) (ready_to_send has_smtp c s) s _
              (λ code key. inl refl)
              (λ lists.
                if_both (Refused s (meanwhile s))
                  ((preview_audience rt lists s).final_recipients == 0) (inl refl)
                  (rw (write_schedule_refuses now date i (meanwhile s) h) (inr refl))))),
)

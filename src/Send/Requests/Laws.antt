-- ===== src/Send/Requests/Laws.antt =====
-- A campaign's schedule is only ever set, and only ever moved, to a time that was asked for and that is
-- ahead.
mod Tests
use ai_email_broadcast_hw.Base.{
  ℕ, ◌<◌, ◌≡◌, refl, sym, ap, subst, ◌∙◌, ◌⊎◌, inl, inr, Bool, true, false, ◌&&◌, ◌||◌, Option,
  none, some, List, [], ◌∷◌, Text, String, arith, ◌==◌, Bool-cases, Option-cases, if_cases, if_both,
  any, map, select, update_where,
}
use ai_email_broadcast_hw.Api.{Response, ok, refused}
use ai_email_broadcast_hw.Store.{Store, Campaign, Recipient, find_campaign}
use ai_email_broadcast_hw.Store.Status.{CampaignStatus, campaign_is}
use ai_email_broadcast_hw.Store.Lookup.{first, none_of_first}
use ai_email_broadcast_hw.Activation.Race.{update_campaign-none, move_to}
use ai_email_broadcast_hw.Audience.{Runtime, preview_audience}
use ai_email_broadcast_hw.Campaign.{
  update_campaign, Rescheduled, moved, reschedule, is_ahead, explain_reschedule,
}
use ai_email_broadcast_hw.Schedule.{ErrorCode, ScheduleResult}
use ai_email_broadcast_hw.Schedule.Iso.{parse_scheduled_at}
use ai_email_broadcast_hw.Schedule.Iso.Laws.{IsChecked, parse_scheduled_at-IsChecked}
use ai_email_broadcast_hw.Send.{
  Parsed, instant, invalid, read_time, and_then, value_or, schedule_for, scheduled, write_schedule,
  schedule_draft, find_draft, ready_to_send,
}
use ai_email_broadcast_hw.Send.Laws.{and_then-cases}
use ai_email_broadcast_hw.Send.Requests.{
  Body, no_json, scheduled_at, parsed_of, read_schedule, request_schedule, find_scheduled,
  answer_move, request_move,
}

abbrev pub is_at : ℕ → Option ℕ → Bool
is_at d none = false
is_at d (some e) = e == d

-- The campaign waits, for the instant.
abbrev pub waits_until : ℕ → ℕ → Campaign → Bool
waits_until i d c =
    c.id == i && (campaign_is c.status CampaignStatus.scheduled && is_at d c.scheduled_at)

first-map :
    (f : Campaign → Campaign) (cs : List Campaign) (c : Campaign)
    → first cs ≡ some c
    → first (map f cs) ≡ some (f c)
first-map f [] c e = cc
first-map f (x ∷ cs) c e = ap f' e
  where
    f' : Option Campaign → Option Campaign
    f' none = none
    f' (some d) = some (f d)

any-update_where :
    (hit q : Campaign → Bool) (f : Campaign → Campaign) (cs : List Campaign) (d : Campaign)
    → ((c : Campaign) → hit c ≡ true → q (f c) ≡ true)
    → first (select hit cs) ≡ some d
    → (any q (update_where hit f cs) ≡ true) × (any hit cs ≡ true)
any-update_where hit q f [] d puts e = cc
any-update_where hit q f (c ∷ cs) d puts e = elim (Bool-cases (hit c)) [
  | inl h ↦ (ground (arith, puts c h), ground arith)
  | inr h ↦
      let (a, b) = any-update_where hit q f cs d puts (rw h at e) in
      (ground (arith, a), ground (arith, b))
]

module _ (i : ℕ) (p q : Campaign → Bool) (f : Campaign → Campaign) (t : Store) where
  -- A conditional update writes nothing, or meets a campaign that passes its test.
  update_campaign-cases :
      ((c : Campaign) → (c.id == i && p c) ≡ true → q (f c) ≡ true)
      → (update_campaign i p f t ≡ (none, t))
        ⊎ ((c : Campaign) × (cs : List Campaign) × (update_campaign i p f t
              ≡ (some (f c), record t { campaigns = cs }))
            × (any q cs ≡ true)
            × (any (λ c. c.id == i && p c) t.campaigns ≡ true))
  unfolding update_campaign
  update_campaign-cases puts =
      let hit = λ (c : Campaign). c.id == i && p c in
      elim (Option-cases (first (select hit t.campaigns))) [
        | inl e ↦ inl (update_campaign-none i p f t (none_of_first hit t.campaigns e))
        | inr (c, e) ↦
            let (a, b) = any-update_where hit q f t.campaigns c puts e in
            inr (
              c,
              update_where hit f t.campaigns,
              ap (λ o. (o, record t { campaigns = update_where hit f t.campaigns }))
                  (first-map f (select hit t.campaigns) c e),
              a,
              b,
            )
      ]

-- The campaign is SCHEDULED, for a time that the database's clock has not reached.
abbrev pub is_movable : ℕ → Campaign → Bool
unfolding is_ahead
is_movable db_clock c =
    campaign_is c.status CampaignStatus.scheduled && is_ahead db_clock c.scheduled_at

-- The time that was asked for.
pub record IsAskedFor (parse_date : Text → Option ℕ) (clock : ℕ) (body : Body) (d : ℕ)
    : Type 0 where
  pub text : Text
  pub sent : body ≡ scheduled_at (some text)
  pub checked : IsChecked parse_date text clock (ScheduleResult.ok d)

instant_injective : (e d : ℕ) → instant e ≡ instant d → e ≡ d
instant_injective e d h = ground arith

module _ (parse_date : Text → Option ℕ) (clock : ℕ) where
  parsed_of-IsChecked :
      (t : Text) (r : ScheduleResult) (d : ℕ)
      → IsChecked parse_date t clock r
      → parsed_of r ≡ instant d
      → IsChecked parse_date t clock (ScheduleResult.ok d)
  unfolding parsed_of
  parsed_of-IsChecked t (ScheduleResult.ok e) d h same =
      subst (λ x. IsChecked parse_date t clock (ScheduleResult.ok x)) (instant_injective e d same) h
  parsed_of-IsChecked t (ScheduleResult.failed code f cs) d h same = cc

  instant-read_time : (p : Parsed) (d : ℕ) → read_time p ≡ ok d → p ≡ instant d
  instant-read_time (instant a) d e = ground arith
  instant-read_time (invalid key) d e = cc

  read_schedule-IsAskedFor :
      (body : Body) (d : ℕ)
      → read_time (read_schedule parse_date clock body) ≡ ok d
      → IsAskedFor parse_date clock body d
  unfolding read_schedule parse_scheduled_at parsed_of
  read_schedule-IsAskedFor no_json d e = cc
  read_schedule-IsAskedFor (scheduled_at none) d e = cc
  read_schedule-IsAskedFor (scheduled_at (some t)) d e = record {
    text = t;
    sent = refl;
    checked =
        parsed_of-IsChecked t (parse_scheduled_at parse_date (some t) clock) d
          (parse_scheduled_at-IsChecked parse_date t clock) (instant-read_time _ d e);
  }

  -- What an answer to a request about the schedule says: where it is a time, that time was asked for
  -- and is ahead, the campaign was as `from` says when the write came and waits for that time now,
  -- and no row of a queue was touched; a refusal has written nothing.
  unfoldable pub IsScheduled :
      (Campaign → Bool) → Body → ℕ → Store → Store → Response ℕ × Store → Type 0
  IsScheduled from body i s t (ok d, s') =
      IsAskedFor parse_date clock body d
      × (any (λ c. c.id == i && from c) t.campaigns ≡ true)
      × (any (waits_until i d) s'.campaigns ≡ true)
      × (s'.recipients ≡ t.recipients)
  IsScheduled from body i s t (refused code key, s') = (s' ≡ s) ⊎ (s' ≡ t)

  write_schedule-IsScheduled :
      (now i d : ℕ) (body : Body) (s t : Store)
      → IsAskedFor parse_date clock body d
      → IsScheduled
          (λ c. campaign_is c.status CampaignStatus.draft)
          body
          i
          s
          t
          (write_schedule now d i t)
  unfolding write_schedule IsScheduled
  write_schedule-IsScheduled now i d body s t asked =
      elim (update_campaign-cases i (λ c. campaign_is c.status CampaignStatus.draft)
        (waits_until i d) (schedule_for now d) t (λ c h. ground arith)) [
          | inl e ↦ rw e (inr refl)
          | inr (c, cs, e, a, b) ↦ rw e (asked, b, a, refl)
        ]

  finish : ℕ → Option Campaign × Store → Rescheduled × Store
  finish i (none, t) = (explain_reschedule (find_campaign i t.campaigns), t)
  finish i (some c, t) = (moved c, t)

  reschedule_lem :
      (now db_clock i d : ℕ) (t : Store)
      → reschedule now db_clock i d t
        ≡ finish i (update_campaign i (is_movable db_clock) (move_to now d) t)
  unfolding reschedule finish update_campaign explain_reschedule
  reschedule_lem now db_clock i d t = ground arith

  explained-IsScheduled :
      (from : Campaign → Bool) (body : Body) (i d : ℕ) (s t : Store) (o : Option Campaign)
      → IsScheduled from body i s t (answer_move d (explain_reschedule o, t))
  unfolding IsScheduled explain_reschedule
  explained-IsScheduled from body i d s t none = inr refl
  explained-IsScheduled from body i d s t (some c) = inr refl

  reschedule-IsScheduled :
      (now db_clock i d : ℕ) (body : Body) (s t : Store)
      → IsAskedFor parse_date clock body d
      → IsScheduled (is_movable db_clock) body i s t (answer_move d (reschedule now db_clock i d t))
  unfolding IsScheduled finish is_movable
  reschedule-IsScheduled now db_clock i d body s t asked =
      subst (λ w. IsScheduled (is_movable db_clock) body i s t (answer_move d w))
        (sym (reschedule_lem now db_clock i d t))
        (elim (update_campaign-cases i (is_movable db_clock) (waits_until i d) (move_to now d) t
          (λ c h. ground arith)) [
            | inl e ↦
                subst
                  (λ w. IsScheduled (is_movable db_clock) body i s t (answer_move d (finish i w)))
                  (sym e)
                  (explained-IsScheduled (is_movable db_clock) body i d s t
                    (find_campaign i t.campaigns))
            | inr (c, cs, e, a, b) ↦ rw e (asked, b, a, refl)
          ])

  -- A draft is scheduled only for a time that was asked for with a zone and is ahead of the
  -- application's clock; it is SCHEDULED for that very time then, was a DRAFT when the write came, and no row
  -- of a queue was touched. Where the request is refused, for whatever reason, nothing has been written:
  -- the store is the one that was read or what other requests made of it.
  pub request_schedule-IsScheduled :
      (rt : Runtime) (now : ℕ) (has_smtp : Bool) (meanwhile : Store → Store) (body : Body) (i : ℕ)
      (s : Store)
      → IsScheduled
          (λ c. campaign_is c.status CampaignStatus.draft)
          body
          i
          s
          (meanwhile s)
          (request_schedule rt parse_date now clock has_smtp meanwhile body i s)
  unfolding request_schedule schedule_draft IsScheduled
  request_schedule-IsScheduled rt now has_smtp meanwhile body i s =
      let P = IsScheduled (λ c. campaign_is c.status CampaignStatus.draft) body i s (meanwhile s) in
      and_then-cases P (find_draft i s) s _ (λ code key. inl refl)
        (λ c e.
          and_then-cases P (read_time (read_schedule parse_date clock body)) s _
            (λ code key. inl refl)
            (λ date r.
              and_then-cases P (ready_to_send has_smtp c s) s _ (λ code key. inl refl)
                (λ lists l.
                  if_both P ((preview_audience rt lists s).final_recipients == 0) (inl refl) (
                    write_schedule-IsScheduled now i date body s (meanwhile s)
                      (read_schedule-IsAskedFor body date r)))))

  -- A schedule is moved only to a time that was asked for with a zone and is ahead of the
  -- application's clock, and only while the campaign is SCHEDULED for a time that the database's clock has
  -- not reached; it waits for the new time then, and no row of a queue was touched. Where the request is
  -- refused nothing has been written: the store is the one that was read or what other requests made of it.
  pub request_move-IsScheduled :
      (now db_clock : ℕ) (meanwhile : Store → Store) (body : Body) (i : ℕ) (s : Store)
      → IsScheduled
          (is_movable db_clock)
          body
          i
          s
          (meanwhile s)
          (request_move parse_date now clock db_clock meanwhile body i s)
  unfolding request_move IsScheduled
  request_move-IsScheduled now db_clock meanwhile body i s =
      let P = IsScheduled (is_movable db_clock) body i s (meanwhile s) in
      and_then-cases P (find_scheduled i s) s _ (λ code key. inl refl)
        (λ c e.
          and_then-cases P (read_time (read_schedule parse_date clock body)) s _
            (λ code key. inl refl)
            (λ date r.
              reschedule-IsScheduled now db_clock i date body s (meanwhile s)
                (read_schedule-IsAskedFor body date r)))

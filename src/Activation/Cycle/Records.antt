-- ===== src/Activation/Cycle/Records.antt =====
-- What a scheduler cycle writes down of each campaign that it tries.
use ai_email_broadcast_hw.Base.{
  ℕ, suc, ◌+◌, ◌≤◌, ◌≡◌, refl, ◌∙◌, ap, inl, inr, Bool, true, Option, some, List, [], ◌∷◌, ◌++◌,
  arith, ◌==◌, ◌&&◌, not, All, All-mono, All-take, All-select_self, Option-cases, count_where,
  count_where-append, select, mem_id,
}
use ai_email_broadcast_hw.Store.{Store, Campaign}
use ai_email_broadcast_hw.Audience.{Runtime}
use ai_email_broadcast_hw.Activation.{
  from_scheduled, QueueResult, queued, unavailable, is_due, is_ready, queue_campaign,
}
use ai_email_broadcast_hw.Activation.Cycle.{
  ActivationOutcome, activated, skipped, failed, ActivationRecord, ActivationResult, Moment, World,
  started, conclude, attempt, fail, due_page, sooner,
}
use ai_email_broadcast_hw.Activation.Failure.{Failure}
use ai_email_broadcast_hw.Base.Sort.{sort, All-sort}

abbrev outcome_code : ActivationOutcome → ℕ
outcome_code activated = 0
outcome_code skipped = 1
outcome_code ActivationOutcome.no_recipients = 2
outcome_code failed = 3

abbrev ended : ActivationOutcome → ActivationRecord → Bool
ended o x = outcome_code x.outcome == outcome_code o

-- Each counter of the result is the number of the records with its outcome; `failed` may count one
-- more, a page that could not be read.
pub record Tallied (r : ActivationResult) : Type 0 where
  pub of_activated : r.activated ≡ count_where (ended activated) r.records
  pub of_skipped : r.skipped ≡ count_where (ended skipped) r.records
  pub of_empty : r.no_recipients ≡ count_where (ended ActivationOutcome.no_recipients) r.records
  pub of_failed : count_where (ended failed) r.records ≤ r.failed

-- The time was at or before the database clock of a page, read when at most so many campaigns had
-- been tried.
abbrev pub CameDue : World → ℕ → Option ℕ → Type 0
CameDue w most scheduled_at =
    (n : ℕ) × (n ≤ most) × (d : ℕ) × (scheduled_at ≡ some d) × (d ≤ (w.page_moment n).clock)

pub CameDue-mono :
    (w : World) (most more : ℕ) (scheduled_at : Option ℕ)
    → most ≤ more
    → CameDue w most scheduled_at
    → CameDue w more scheduled_at
CameDue-mono w most more scheduled_at h (n, k, d, e, late) = (n, omega arith, d, e, late)

-- What one try adds to the result.
pub record Adds (c : Campaign) (r r' : ActivationResult) : Type 0 where
  pub starts : started r' ≤ suc (started r)
  pub one_record :
      (x : ActivationRecord) × (r'.records ≡ r.records ++ x ∷ [])
      × (x.campaign_id ≡ c.id)
      × (x.scheduled_at ≡ c.scheduled_at)
  pub tallies : Tallied r → Tallied r'
  pub same_due : r'.due ≡ r.due

module _ (r r' : ActivationResult) (x : ActivationRecord) where
  abbrev OneMore : ActivationOutcome → ℕ → ℕ → Type 0
  OneMore o n n' = n' ≡ n + count_where (ended o) (x ∷ [])

  count_one :
      (o : ActivationOutcome)
      → r'.records ≡ r.records ++ x ∷ []
      → count_where (ended o) r'.records
        ≡ count_where (ended o) r.records + count_where (ended o) (x ∷ [])
  count_one o e = ap (count_where (ended o)) e ∙ count_where-append (ended o) r.records (x ∷ [])

  Tallied-append :
      r'.records ≡ r.records ++ x ∷ []
      → OneMore activated r.activated r'.activated
      → OneMore skipped r.skipped r'.skipped
      → OneMore ActivationOutcome.no_recipients r.no_recipients r'.no_recipients
      → OneMore failed r.failed r'.failed
      → Tallied r
      → Tallied r'
  Tallied-append e a s n f t = record {
    of_activated = omega (arith, t.of_activated, a, count_one activated e);
    of_skipped = omega (arith, t.of_skipped, s, count_one skipped e);
    of_empty = omega (arith, t.of_empty, n, count_one ActivationOutcome.no_recipients e);
    of_failed = omega (arith, t.of_failed, f, count_one failed e);
  }

fail-Adds : (e : Failure) (c : Campaign) (r : ActivationResult) → Adds c r (fail e c r)
fail-Adds e c r = record {
  starts = unfold started in omega arith;
  one_record = (_, refl, refl, refl);
  tallies =
      Tallied-append r (fail e c r) _ refl (omega arith) (omega arith) (omega arith) (omega arith);
  same_due = refl;
}

conclude-Adds :
    (m : Moment) (c : Campaign) (r : ActivationResult) (q : QueueResult × Store)
    → Adds c r (conclude m c r q).0
unfolding conclude started
conclude-Adds m c r (queued at g, s) = record {
  starts = omega arith;
  one_record = (_, refl, refl, refl);
  tallies = Tallied-append r _ _ refl (omega arith) (omega arith) (omega arith) (omega arith);
  same_due = refl;
}
conclude-Adds m c r (unavailable, s) = record {
  starts = omega arith;
  one_record = (_, refl, refl, refl);
  tallies = Tallied-append r _ _ refl (omega arith) (omega arith) (omega arith) (omega arith);
  same_due = refl;
}
conclude-Adds m c r (QueueResult.no_recipients, s) = elim (Option-cases m.close_throws) [
  | inl e ↦
      rw (e, conclude)
        (record {
          starts = omega arith;
          one_record = (_, refl, refl, refl);
          tallies =
              Tallied-append r _ _ refl (omega arith) (omega arith) (omega arith) (omega arith);
          same_due = refl;
        })
  | inr (f, e) ↦ rw (e, conclude) (fail-Adds f c r)
]

pub attempt-Adds :
    (rt : Runtime) (m : Moment) (c : Campaign) (r : ActivationResult) (s : Store)
    → Adds c r (attempt rt m c r s).0
unfolding attempt
attempt-Adds rt m c r s = elim (Option-cases m.throws) [
  | inl e ↦
      let q = queue_campaign rt m.now m.clock m.locked c.id from_scheduled s in
      let adds : Adds c r (conclude m c r q).0 = conclude-Adds m c r q in rw (e, attempt) adds
  | inr (f, e) ↦ rw (e, attempt) (fail-Adds f c r)
]

came_due :
    (w : World) (n : ℕ) (c : Campaign)
    → is_ready from_scheduled (w.page_moment n).clock c ≡ true
    → CameDue w n c.scheduled_at
unfolding is_ready is_due
came_due w n c h = elim (Option-cases c.scheduled_at) [
  | inl e ↦ absurd (ground arith)
  | inr (d, e) ↦ (n, omega arith, d, e, ground arith)
]

-- Every campaign of a page has come due.
pub due_page-CameDue :
    (w : World) (n : ℕ) (tried : List ℕ) (limit : ℕ) (s : Store)
    → All (λ c. CameDue w n c.scheduled_at) (due_page (w.page_moment n).clock tried limit s)
unfolding due_page
due_page-CameDue w n tried limit s =
    let picked : Campaign → Bool =
      λ c. is_ready from_scheduled (w.page_moment n).clock c && not (mem_id c.id tried) in
    All-take (λ c. CameDue w n c.scheduled_at) limit (sort sooner (select picked s.campaigns))
      (All-sort sooner (λ c. CameDue w n c.scheduled_at) (select picked s.campaigns)
        (All-mono _ _ (select picked s.campaigns) (λ c h. came_due w n c (ground arith))
          (All-select_self picked s.campaigns)))

-- ===== src/Worker/Settle.antt =====
-- What becomes of the rows of a batch, `sendBatch` of src/lib/worker.ts.
pub mod Rows
pub mod Counts
use ai_email_broadcast_hw.Base.{
  ℕ, zero, suc, ◌+◌, ◌≤◌, ◌<◌, ◌≡◌, refl, sym, ◌∙◌, ap, ◌⊎◌, inl, inr, max, min, Bool, true, false,
  not, ◌&&◌, ◌||◌, Option, none, some, List, [], ◌∷◌, ◌++◌, map, arith, All, All-mono, All-true,
  Bool-cases, Option-cases, length, length-append, update_where, mem_id, ltb, ◌==◌, if◌then◌else◌,
  is_some,
}
use mathlib.Core.Path.{ap₂}
use ai_email_broadcast_hw.Store.{Store, Recipient}
use ai_email_broadcast_hw.Store.Status.{DeliveryStatus, delivery_is}
use ai_email_broadcast_hw.Queue.{
  Config, ClaimedRecipient, is_in_flight, sent_row, failed_row, retry_row, release_row, mark_sent,
  mark_failed, schedule_retry, release_claims,
}
use ai_email_broadcast_hw.Worker.Batch.{
  is_set, BatchState, Turn, takes, finishes, Attempt, delivered, thrown, take_turn, settle,
  finish_turn, turn, turns, send_batch, start_batch, loop_count, pull, attempted, is_over, id_of,
  is_transport_failure, is_permanent_smtp_error,
}
use ai_email_broadcast_hw.Rate.{should_retry}
use Rows.{
  is_sending, open_ids, Covered, NoneSending, still, settle_keeps, turns-Covered, start-Covered,
}
use Counts.{tally_of, AddsUp, turns-AddsUp}

module _ (cfg : Config) (concurrency : ℕ) (ts : List Turn) (cs : List ClaimedRecipient)
    (s : Store) where
  nothing_open :
      is_over (send_batch cfg concurrency ts cs s) ≡ true
      → still (send_batch cfg concurrency ts cs s) ≡ []
  unfolding is_over
  nothing_open h = ended (send_batch cfg concurrency ts cs s) h
    where
      ended : (b : BatchState) → (length b.waiting + length b.flying == 0) ≡ true → still b ≡ []
      ended b h = none_left b.waiting b.flying h
        where
          none_left :
              (w f : List ClaimedRecipient)
              → (length w + length f == 0) ≡ true
              → open_ids w ++ open_ids f ≡ []
          none_left [] [] h = refl
          none_left [] (c ∷ f) h = absurd (ground arith)
          none_left (c ∷ w) f h = absurd (ground arith)

  -- When a batch has ended, however its turns were ordered and whatever the server answered, none of
  -- its rows is left SENDING; and no more messages were attempted than it had, and all of them unless
  -- the transport failed.
  pub send_batch_settles :
      let b = send_batch cfg concurrency ts cs s in
      is_over b ≡ true
      → NoneSending (open_ids cs) b.store.recipients
        × (attempted b ≤ length cs)
        × ((attempted b ≡ length cs) ⊎ (is_some b.auth_failure ≡ true))
  unfolding send_batch start_batch is_over
  send_batch_settles h =
      let loops = loop_count concurrency cs in
      let b = send_batch cfg concurrency ts cs s in
      let c =
        turns-Covered cfg (open_ids cs) loops ts (start_batch cs s)
          (start-Covered cs s.recipients) in
      let t =
        turns-AddsUp cfg (length cs) loops ts (start_batch cs s) (omega arith, inl (omega arith)) in
      (
        All-mono _ _ b.store.recipients (λ r k. none_sending r (rw (nothing_open h) at k)) c,
        omega (arith, t.0),
        all_or_failed b h t.1,
      )
    where
      none_sending :
          (r : Recipient)
          → ((mem_id r.id (open_ids cs) && is_sending r) ≡ true → mem_id r.id [] ≡ true)
          → (mem_id r.id (open_ids cs) && is_sending r) ≡ false
      none_sending r k = elim (Bool-cases (mem_id r.id (open_ids cs) && is_sending r)) [
        | inl e ↦ cc (k e)
        | inr e ↦ e
      ]

      all_or_failed :
          (b : BatchState)
          → is_over b ≡ true
          → (tally_of b ≡ length cs) ⊎ (is_some b.auth_failure ≡ true)
          → (attempted b ≡ length cs) ⊎ (is_some b.auth_failure ≡ true)
      all_or_failed b h t = ground arith

-- The turns of one loop that sends message after message.
abbrev pub in_sequence : ℕ → List Attempt → List Turn
in_sequence now [] = []
in_sequence now (a ∷ attempts) = takes ∷ finishes 0 now a ∷ in_sequence now attempts

abbrev rest_of : List ClaimedRecipient → List ClaimedRecipient
rest_of [] = []
rest_of (c ∷ cs) = cs

module _ (cfg : Config) (loops now : ℕ) (running : 0 < loops) where
  -- Taking one message and seeing it through, where none is under way.
  one_message :
      (a : Attempt) (b : BatchState) (cs : List ClaimedRecipient)
      → b.flying ≡ []
      → b.waiting ≡ cs
      → let b' = finish_turn cfg 0 now a (take_turn loops b) in
        (b'.flying ≡ []) × (b'.waiting ≡ rest_of cs)
  unfolding finish_turn take_turn
  one_message a b [] f w = ground arith
  one_message a b (c ∷ cs) f w = elim (Bool-cases (is_set b.auth_failure)) [
    | inl e ↦ ground arith
    | inr e ↦
        let kept = settle_keeps cfg now c a (record b { waiting = cs; flying = [] }) in
        ground (arith, kept.0, kept.1)
  ]

  one_by_one :
      (attempts : List Attempt) (b : BatchState)
      → b.flying ≡ []
      → length b.waiting ≤ length attempts
      → is_over (turns cfg loops (in_sequence now attempts) b) ≡ true
  unfolding turns turn is_over
  one_by_one [] b f h = ground arith
  one_by_one (a ∷ attempts) b f h =
      let m = one_message a b b.waiting f refl in
      one_by_one attempts (finish_turn cfg 0 now a (take_turn loops b)) m.0
        (rw m.1 (shorter b.waiting h))
    where
      shorter :
          (cs : List ClaimedRecipient)
          → length cs ≤ suc (length attempts)
          → length (rest_of cs) ≤ length attempts
      shorter [] h = omega arith
      shorter (c ∷ cs) h = omega arith

-- One loop that has as many turns as there are messages brings the batch to its end, whatever the
-- server answers.
pub send_batch_ends :
    (cfg : Config) (concurrency now : ℕ) (attempts : List Attempt) (cs : List ClaimedRecipient)
    (s : Store)
    → length cs ≤ length attempts
    → is_over (send_batch cfg concurrency (in_sequence now attempts) cs s) ≡ true
unfolding send_batch start_batch
send_batch_ends cfg concurrency now attempts cs s h =
    one_by_one cfg (loop_count concurrency cs) now positive attempts (start_batch cs s) refl h
  where
    positive : 0 < loop_count concurrency cs
    positive = unfold loop_count in omega arith

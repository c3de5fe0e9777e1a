-- ===== src/Worker/Quota.antt =====
-- A round of the worker stays within the hourly ceiling, and sends to no suppressed address.
use ai_email_broadcast_hw.Base.{
  ℕ, String, zero, suc, ◌+◌, ◌≤◌, ◌≡◌, refl, ◌∙◌, ap, ◌⊎◌, inl, inr, max, Bool, false, List, [],
  ◌∷◌, Text, arith, All, Bool-cases, Option-cases, count_where, count_where-append, length, select,
  ltb, ◌==◌, drop,
}
use ai_email_broadcast_hw.Base.Keys.{Distinct}
use ai_email_broadcast_hw.Store.{Store, SendLog, seconds}
use ai_email_broadcast_hw.Queue.{
  Config, ClaimedRecipient, claim_recipients, count_sent_in_window, log_send_attempt, log_rows,
  refund_send_attempts, mark_sent, mark_failed, schedule_retry, release_claims, mark_suppressed,
  mark_campaigns_started,
}
use ai_email_broadcast_hw.Queue.Claim.{ids, length-claim}
use ai_email_broadcast_hw.Rate.Laws.{IsShare, batch_size_fits}
use ai_email_broadcast_hw.Worker.Batch.{
  is_set, BatchState, Turn, takes, finishes, Attempt, delivered, thrown, take_turn, settle,
  finish_turn, turn, turns, send_batch, start_batch, pull, attempted,
}
use ai_email_broadcast_hw.Worker.{
  WorkerOptions, Round, Tally, Triage, has_text, triage, set_aside, deliver, tick_round,
  round_limit, options_for, factor_of,
}

send_log-claim :
    (cfg : Config) (worker : String) (limit now : ℕ) (locked : ℕ → Bool) (s : Store)
    → (claim_recipients cfg worker limit now locked s).1.send_log ≡ s.send_log
unfolding claim_recipients
send_log-claim cfg worker limit now locked s = ground arith

-- Setting rows aside: nothing is logged, and no more are sendable than were claimed.
send_log-triage :
    (ts : List Text) (cs : List ClaimedRecipient) (s : Store)
    → ((triage ts cs s).store.send_log ≡ s.send_log)
      × (length (triage ts cs s).sendable ≤ length cs)
unfolding triage mark_suppressed
send_log-triage ts [] s = (refl, omega arith)
send_log-triage ts (c ∷ cs) s =
    let held =
      send_log-triage ts cs (mark_suppressed c.row.id "Address is on the suppression list" s) in
    let kept = send_log-triage ts cs s in ground (arith, held.0, held.1, kept.0, kept.1)

triage_welcome :
    (ts : List Text) (cs : List ClaimedRecipient) (s : Store)
    → All (λ c. has_text ts c.row.email_normalized ≡ false) (triage ts cs s).sendable
unfolding triage
triage_welcome ts [] s = tt
triage_welcome ts (c ∷ cs) s = elim (Bool-cases (has_text ts c.row.email_normalized)) [
  | inl e ↦ rw (e, triage) (triage_welcome ts cs _)
  | inr e ↦ rw (e, triage) (e, triage_welcome ts cs s)
]

send_log-set_aside :
    (now : ℕ) (cs : List ClaimedRecipient) (s : Store)
    → ((set_aside now cs s).store.send_log ≡ s.send_log)
      × (length (set_aside now cs s).sendable ≤ length cs)
unfolding set_aside mark_campaigns_started
send_log-set_aside now cs s = send_log-triage _ cs _

module _ (cfg : Config) where
  send_log-settle :
      (now : ℕ) (c : ClaimedRecipient) (a : Attempt) (b : BatchState)
      → (settle cfg now c a b).store.send_log ≡ b.store.send_log
  unfolding settle mark_sent release_claims schedule_retry mark_failed
  send_log-settle now c delivered b = refl
  send_log-settle now c (thrown e) b = ground arith

  send_log-take_turn :
      (loops : ℕ) (b : BatchState) → (take_turn loops b).store.send_log ≡ b.store.send_log
  unfolding take_turn release_claims
  send_log-take_turn loops b = ground arith

  send_log-turn :
      (loops : ℕ) (t : Turn) (b : BatchState)
      → (turn cfg loops t b).store.send_log ≡ b.store.send_log
  unfolding turn finish_turn
  send_log-turn loops takes b = send_log-take_turn loops b
  send_log-turn loops (finishes k now a) b = elim (Option-cases (pull k b.flying)) [
    | inl e ↦ rw (e, finish_turn) refl
    | inr ((c, rest), e) ↦
        rw (e, finish_turn) (send_log-settle now c a (record b { flying = rest }))
  ]

  send_log-turns :
      (loops : ℕ) (ts : List Turn) (b : BatchState)
      → (turns cfg loops ts b).store.send_log ≡ b.store.send_log
  unfolding turns
  send_log-turns loops [] b = refl
  send_log-turns loops (t ∷ ts) b =
      send_log-turns loops ts (turn cfg loops t b) ∙ send_log-turn loops t b

  send_log-send_batch :
      (concurrency : ℕ) (ts : List Turn) (cs : List ClaimedRecipient) (s : Store)
      → (send_batch cfg concurrency ts cs s).store.send_log ≡ s.send_log
  unfolding send_batch
  send_log-send_batch concurrency ts cs s = send_log-turns _ ts (start_batch cs s)

module _ (p : SendLog → Bool) where
  count_where-select_le :
      (q : SendLog → Bool) (ls : List SendLog) → count_where p (select q ls) ≤ count_where p ls
  count_where-select_le q [] = omega arith
  count_where-select_le q (l ∷ ls) = ground (arith, count_where-select_le q ls)

  count_where-log_rows : (now next n : ℕ) → count_where p (log_rows now next n) ≤ n
  unfolding log_rows
  count_where-log_rows now next zero = omega arith
  count_where-log_rows now next (suc n) = ground (arith, count_where-log_rows now (suc next) n)

module _ (at window : ℕ) where
  -- A reservation of `n` counts as `n` at the most.
  count-log_send_attempt :
      (now n : ℕ) (s : Store)
      → count_sent_in_window at window (log_send_attempt now n s).1
        ≤ count_sent_in_window at window s + n
  unfolding count_sent_in_window log_send_attempt
  count-log_send_attempt now n s = omega (
    arith,
    count_where-append (λ l. ltb at (l.occurred_at + seconds window)) s.send_log
        (log_rows now s.next_id n),
    count_where-log_rows (λ l. ltb at (l.occurred_at + seconds window)) now s.next_id n,
  )

  count-refund :
      (is : List ℕ) (s : Store)
      → count_sent_in_window at window (refund_send_attempts is s)
        ≤ count_sent_in_window at window s
  unfolding count_sent_in_window refund_send_attempts
  count-refund is s = count_where-select_le _ _ s.send_log

  count_of_same_log :
      (s t : Store)
      → s.send_log ≡ t.send_log
      → count_sent_in_window at window s ≡ count_sent_in_window at window t
  unfolding count_sent_in_window
  count_of_same_log s t e = ap (count_where (λ l. ltb at (l.occurred_at + seconds window))) e

  count-send_batch :
      (cfg : Config) (concurrency now : ℕ) (ts : List Turn) (cs : List ClaimedRecipient) (s : Store)
      → count_sent_in_window at window
          (send_batch cfg concurrency ts cs (log_send_attempt now (length cs) s).1).store
        ≤ count_sent_in_window at window s + length cs
  count-send_batch cfg concurrency now ts cs s =
      let reserved = (log_send_attempt now (length cs) s).1 in
      omega (
        arith,
        count_of_same_log (send_batch cfg concurrency ts cs reserved).store reserved
            (send_log-send_batch cfg concurrency ts cs reserved),
        count-log_send_attempt now (length cs) s,
      )

  count-deliver :
      (o : WorkerOptions) (env : Round) (tally : Tally) (t : Triage)
      → count_sent_in_window at window (deliver o env tally t).store
        ≤ count_sent_in_window at window t.store + length t.sendable
  unfolding deliver
  count-deliver o env tally t = by_rows t.sendable
    where
      by_rows :
          (cs : List ClaimedRecipient)
          → count_sent_in_window at window (deliver o env tally (record t { sendable = cs })).store
            ≤ count_sent_in_window at window t.store + length cs
      by_rows [] = omega arith
      by_rows (c ∷ cs) =
          let logged = log_send_attempt env.now (length (c ∷ cs)) t.store in
          let b = send_batch o.queue o.concurrency env.batch_turns (c ∷ cs) logged.1 in
          let bound =
            count-send_batch o.queue o.concurrency env.now env.batch_turns (c ∷ cs) t.store in
          elim (Bool-cases (is_set b.auth_failure)) [
            | inl e ↦
                rw (e, deliver)
                  (omega (arith, count-refund (drop (attempted b) logged.0) b.store, bound))
            | inr e ↦ rw (e, deliver) bound
          ]

module _ (o : WorkerOptions) (env : Round) (tally : Tally) (s : Store) where
  abbrev round_claim : List ClaimedRecipient × Store
  round_claim = claim_recipients o.queue o.worker_id (round_limit o env.now s) env.now env.locked s

  abbrev sent_count : Store → ℕ
  sent_count t = count_sent_in_window env.now o.rate.window_seconds t

  length-round_claim : Distinct (ids s.recipients) → length round_claim.0 ≤ round_limit o env.now s
  length-round_claim keys =
      omega (
        arith,
        length-claim o.queue o.worker_id (round_limit o env.now s) env.now env.locked s keys,
      )

  count-set_aside : sent_count (set_aside env.now round_claim.0 round_claim.1).store ≡ sent_count s
  count-set_aside = count_of_same_log env.now o.rate.window_seconds _ s (
      (send_log-set_aside env.now round_claim.0 round_claim.1).0
      ∙ send_log-claim o.queue o.worker_id _ env.now env.locked s)

  round_limit-fits :
      IsShare (factor_of o)
      → (round_limit o env.now s ≡ 0) ⊎ (sent_count s + round_limit o env.now s ≤ o.rate.max_emails)
  unfolding round_limit options_for
  round_limit-fits h = (batch_size_fits (options_for o (sent_count s)) h).0

  -- A round of the worker, with a share for its safety factor, leaves the count of messages in the
  -- window within the ceiling, or as it found it; the rows have different ids.
  pub tick_round_within :
      IsShare (factor_of o)
      → Distinct (ids s.recipients)
      → sent_count (tick_round o env tally s).store ≤ max (sent_count s) o.rate.max_emails
  unfolding tick_round
  tick_round_within h keys =
      let t = set_aside env.now round_claim.0 round_claim.1 in
      let fewer = (send_log-set_aside env.now round_claim.0 round_claim.1).1 in
      let kept = count-set_aside in
      let n = length-round_claim keys in
      let same =
        count_of_same_log env.now o.rate.window_seconds round_claim.1 s
          (send_log-claim o.queue o.worker_id _ env.now env.locked s) in
      elim (Bool-cases (round_limit o env.now s == 0)) [
        | inl e ↦ rw (e, tick_round) (omega arith)
        | inr e ↦
            rw (e, tick_round)
              (elim (Bool-cases (length round_claim.0 == 0)) [
                | inl k ↦ rw k (omega (arith, same))
                | inr k ↦ rw k (
                    ground (
                      arith,
                      e,
                      kept,
                      n,
                      fewer,
                      round_limit-fits h,
                      count-deliver env.now o.rate.window_seconds o env
                          (record tally {
                            claimed = tally.claimed + length round_claim.0;
                            suppressed = tally.suppressed + t.held_back;
                          })
                          t,
                    ))
              ])
      ]

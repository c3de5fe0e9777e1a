-- ===== src/Worker/Settle/Rows.antt =====
-- The rows of a batch that are SENDING are those of its open messages.
use ai_email_broadcast_hw.Base.{
  ℕ, zero, suc, ◌≡◌, refl, inl, inr, Bool, true, false, ◌&&◌, ◌||◌, some, List, [], ◌∷◌, ◌++◌, map,
  arith, All, All-mono, Bool-cases, Option-cases, length, update_where, mem_id, ltb, ◌==◌,
}
use mathlib.Core.Path.{ap₂}
use ai_email_broadcast_hw.Store.{Recipient}
use ai_email_broadcast_hw.Store.Status.{DeliveryStatus, delivery_is}
use ai_email_broadcast_hw.Queue.{
  Config, ClaimedRecipient, is_in_flight, sent_row, failed_row, retry_row, release_row, mark_sent,
  mark_failed, schedule_retry, release_claims,
}
use ai_email_broadcast_hw.Worker.Batch.{
  is_set, BatchState, Turn, takes, finishes, Attempt, delivered, thrown, take_turn, settle,
  finish_turn, turn, turns, pull, id_of, is_transport_failure, is_permanent_smtp_error,
}
use ai_email_broadcast_hw.Rate.{should_retry}

abbrev pub is_sending : Recipient → Bool
is_sending r = delivery_is r.delivery_status DeliveryStatus.sending

-- The ids of the messages that are not yet settled.
abbrev pub open_ids : List ClaimedRecipient → List ℕ
open_ids cs = map id_of cs

mem_id-append : (i : ℕ) (is js : List ℕ) → mem_id i (is ++ js) ≡ (mem_id i is || mem_id i js)
mem_id-append i [] js = refl
mem_id-append i (k ∷ is) js = ground (arith, mem_id-append i is js)

-- Every row of these ids that is SENDING is among the open ones.
abbrev pub Covered : List ℕ → List ℕ → List Recipient → Type 0
Covered all still rs =
    All (λ r. (mem_id r.id all && is_sending r) ≡ true → mem_id r.id still ≡ true) rs

-- An update that settles the rows in flight with one id.
Covered-update_where :
    (all still rest : List ℕ) (i : ℕ) (hit : Recipient → Bool) (f : Recipient → Recipient)
    (rs : List Recipient)
    → ((r : Recipient) → (r.id == i) ≡ true → is_sending r ≡ true → hit r ≡ true)
    → ((r : Recipient) → is_sending (f r) ≡ false)
    → ((j : ℕ) → (j == i) ≡ false → mem_id j still ≡ true → mem_id j rest ≡ true)
    → Covered all still rs
    → Covered all rest (update_where hit f rs)
Covered-update_where all still rest i hit f [] a b c h = tt
Covered-update_where all still rest i hit f (r ∷ rs) a b c (h, hs) =
    let later = Covered-update_where all still rest i hit f rs a b c hs in
    elim (Bool-cases (hit r)) [
      | inl e ↦ rw e (λ k. absurd (ground (arith, b r)), later)
      | inr e ↦ rw e (λ k. c r.id (other e k) (h k), later)
    ]
  where
    other : hit r ≡ false → (mem_id r.id all && is_sending r) ≡ true → (r.id == i) ≡ false
    other e k = elim (Bool-cases (r.id == i)) [ inl m ↦ absurd (ground (arith, a r m)) | inr m ↦ m ]

-- No row of these ids is SENDING.
abbrev pub NoneSending : List ℕ → List Recipient → Type 0
NoneSending all rs = All (λ r. (mem_id r.id all && is_sending r) ≡ false) rs

abbrev pub still : BatchState → List ℕ
still b = open_ids b.waiting ++ open_ids b.flying

mem_id-open_append :
    (j : ℕ) (cs ds : List ClaimedRecipient)
    → mem_id j (open_ids (cs ++ ds)) ≡ (mem_id j (open_ids cs) || mem_id j (open_ids ds))
mem_id-open_append j [] ds = refl
mem_id-open_append j (c ∷ cs) ds = ground (arith, mem_id-open_append j cs ds)

mem_id-pull :
    (j k : ℕ) (cs rest : List ClaimedRecipient) (c : ClaimedRecipient)
    → pull k cs ≡ some (c, rest)
    → mem_id j (open_ids cs) ≡ (j == id_of c || mem_id j (open_ids rest))
mem_id-pull j k [] rest c e = cc
mem_id-pull j zero (x ∷ cs) rest c e = ground arith
mem_id-pull j (suc k) (x ∷ cs) rest c e = elim (Option-cases (pull k cs)) [
  | inl h ↦ absurd (ground arith)
  | inr ((y, ys), h) ↦ ground (arith, mem_id-pull j k cs ys y h)
]

-- Settling a message leaves the other ones where they are.
pub settle_keeps :
    (cfg : Config) (now : ℕ) (c : ClaimedRecipient) (a : Attempt) (b : BatchState)
    → ((settle cfg now c a b).waiting ≡ b.waiting) × ((settle cfg now c a b).flying ≡ b.flying)
unfolding settle
settle_keeps cfg now c delivered b = (refl, refl)
settle_keeps cfg now c (thrown e) b = ground arith

still-settle :
    (cfg : Config) (now : ℕ) (c : ClaimedRecipient) (a : Attempt) (b : BatchState)
    → still (settle cfg now c a b) ≡ still b
still-settle cfg now c a b =
    let k = settle_keeps cfg now c a b in ap₂ (λ x y. open_ids x ++ open_ids y) k.0 k.1

module _ (cfg : Config) (all : List ℕ) where
  settle-Covered :
      (now : ℕ) (c : ClaimedRecipient) (a : Attempt) (b : BatchState) (before : List ℕ)
      → ((j : ℕ) → (j == id_of c) ≡ false → mem_id j before ≡ true → mem_id j (still b) ≡ true)
      → Covered all before b.store.recipients
      → Covered all (still b) (settle cfg now c a b).store.recipients
  unfolding settle mark_sent mark_failed schedule_retry release_claims is_in_flight sent_row
      failed_row retry_row release_row
  settle-Covered now c delivered b before k h =
      Covered-update_where all before (still b) (id_of c) (is_in_flight (id_of c)) (sent_row now)
        b.store.recipients (λ r m e. ground arith) (λ r. refl) k h
  settle-Covered now c (thrown e) b before k h = elim (Bool-cases (is_transport_failure e)) [
    | inl t ↦
        rw (t, settle)
          (Covered-update_where all before (still b) (id_of c) _ release_row b.store.recipients
            (λ r m s. ground arith) (λ r. refl) k h)
    | inr t ↦
        rw (t, settle)
          (elim (Bool-cases
            (should_retry c.row.attempts (is_permanent_smtp_error e) cfg.max_attempts)) [
              | inl y ↦ rw y (
                  Covered-update_where all before (still b) (id_of c) (is_in_flight (id_of c))
                    (retry_row now _ e.message) b.store.recipients (λ r m s. ground arith)
                    (λ r. refl) k h)
              | inr y ↦ rw y (
                  Covered-update_where all before (still b) (id_of c) (is_in_flight (id_of c))
                    (failed_row e.message) b.store.recipients (λ r m s. ground arith) (λ r. refl) k
                    h)
            ])
  ]

  take_turn-Covered :
      (loops : ℕ) (b : BatchState)
      → Covered all (still b) b.store.recipients
      → Covered all (still (take_turn loops b)) (take_turn loops b).store.recipients
  unfolding take_turn release_claims release_row
  take_turn-Covered loops b h = by_rows b.waiting h
    where
      by_rows :
          (cs : List ClaimedRecipient)
          → Covered all (still (record b { waiting = cs })) b.store.recipients
          → Covered all
              (still (take_turn loops (record b { waiting = cs })))
              (take_turn loops (record b { waiting = cs })).store.recipients
      by_rows [] h = h
      by_rows (c ∷ cs) h = elim (Bool-cases (is_set b.auth_failure)) [
        | inl e ↦
            rw (e, take_turn)
              (Covered-update_where all (id_of c ∷ still (record b { waiting = cs }))
                (still (record b { waiting = cs })) (id_of c) _ release_row b.store.recipients
                (λ r m s. ground arith) (λ r. refl) (λ j m k. ground arith) h)
        | inr e ↦
            rw (e, take_turn)
              (elim (Bool-cases (ltb (length b.flying) loops)) [
                | inl l ↦ rw l (
                    All-mono _ _ b.store.recipients
                      (λ r k s. ground (
                        arith,
                        k s,
                        mem_id-append r.id (open_ids (c ∷ cs)) (open_ids b.flying),
                        mem_id-append r.id (open_ids cs) (open_ids (b.flying ++ c ∷ [])),
                        mem_id-open_append r.id b.flying (c ∷ []),
                      ))
                      h)
                | inr l ↦ rw l h
              ])
      ]

  turn-Covered :
      (loops : ℕ) (t : Turn) (b : BatchState)
      → Covered all (still b) b.store.recipients
      → Covered all (still (turn cfg loops t b)) (turn cfg loops t b).store.recipients
  unfolding turn finish_turn
  turn-Covered loops takes b h = take_turn-Covered loops b h
  turn-Covered loops (finishes k now a) b h = elim (Option-cases (pull k b.flying)) [
    | inl e ↦ rw (e, finish_turn) h
    | inr ((c, rest), e) ↦
        rw (e, finish_turn)
          (rw (still-settle cfg now c a (record b { flying = rest }))
            (settle-Covered now c a (record b { flying = rest }) (still b) (fewer c rest e) h))
  ]
    where
      fewer :
          (c : ClaimedRecipient) (rest : List ClaimedRecipient)
          → pull k b.flying ≡ some (c, rest)
          → (j : ℕ) → (j == id_of c) ≡ false
          → mem_id j (still b) ≡ true
          → mem_id j (still (record b { flying = rest })) ≡ true
      fewer c rest e j n m = ground (
        arith,
        mem_id-append j (open_ids b.waiting) (open_ids b.flying),
        mem_id-append j (open_ids b.waiting) (open_ids rest),
        mem_id-pull j k b.flying rest c e,
      )

  pub turns-Covered :
      (loops : ℕ) (ts : List Turn) (b : BatchState)
      → Covered all (still b) b.store.recipients
      → Covered all (still (turns cfg loops ts b)) (turns cfg loops ts b).store.recipients
  unfolding turns
  turns-Covered loops [] b h = h
  turns-Covered loops (t ∷ ts) b h =
      turns-Covered loops ts (turn cfg loops t b) (turn-Covered loops t b h)

pub start-Covered :
    (cs : List ClaimedRecipient) (rs : List Recipient)
    → Covered (open_ids cs) (open_ids cs ++ []) rs
start-Covered cs [] = tt
start-Covered cs (r ∷ rs) =
    (λ k. ground (arith, mem_id-append r.id (open_ids cs) []), start-Covered cs rs)

-- ===== src/Worker/Settle/Counts.antt =====
-- The messages of a batch and the counts of what became of them.
use ai_email_broadcast_hw.Base.{
  ℕ, zero, suc, ◌+◌, ◌≤◌, ◌≡◌, refl, ◌⊎◌, inl, inr, true, Option, none, some, List, String, [], ◌∷◌,
  arith, Option-cases, length, length-append, is_some,
}
use ai_email_broadcast_hw.Queue.{Config, ClaimedRecipient}
use ai_email_broadcast_hw.Worker.Batch.{
  is_set, BatchState, Turn, takes, finishes, Attempt, delivered, thrown, take_turn, settle,
  finish_turn, turn, turns, pull, attempted,
}

length-pull :
    (k : ℕ) (cs rest : List ClaimedRecipient) (c : ClaimedRecipient)
    → pull k cs ≡ some (c, rest)
    → length cs ≡ suc (length rest)
length-pull k [] rest c e = cc
length-pull zero (x ∷ cs) rest c e = ground arith
length-pull (suc k) (x ∷ cs) rest c e = elim (Option-cases (pull k cs)) [
  | inl h ↦ absurd (ground arith)
  | inr ((y, ys), h) ↦ ground (arith, length-pull k cs ys y h)
]

-- The messages of a batch that are accounted for.
abbrev pub tally_of : BatchState → ℕ
tally_of b = length b.waiting + length b.flying + attempted b

-- As many as `n`; or fewer, once the transport has failed.
abbrev pub AddsUp : ℕ → BatchState → Type 0
AddsUp n b = (tally_of b ≤ n) × ((tally_of b ≡ n) ⊎ (is_some b.auth_failure ≡ true))

is_some_of_set : (m : Option String) → is_set m ≡ true → is_some m ≡ true
is_some_of_set none h = cc
is_some_of_set (some m) h = refl

module _ (cfg : Config) (n : ℕ) where
  settle-AddsUp :
      (now : ℕ) (c : ClaimedRecipient) (a : Attempt) (b : BatchState)
      → (suc (tally_of b) ≤ n)
      → ((suc (tally_of b) ≡ n) ⊎ (is_some b.auth_failure ≡ true))
      → AddsUp n (settle cfg now c a b)
  unfolding settle
  settle-AddsUp now c delivered b h k = ground arith
  settle-AddsUp now c (thrown e) b h k = ground arith

  take_turn-AddsUp : (loops : ℕ) (b : BatchState) → AddsUp n b → AddsUp n (take_turn loops b)
  unfolding take_turn
  take_turn-AddsUp loops b h = by_rows b.waiting h
    where
      by_rows :
          (cs : List ClaimedRecipient)
          → AddsUp n (record b { waiting = cs })
          → AddsUp n (take_turn loops (record b { waiting = cs }))
      by_rows [] h = h
      by_rows (c ∷ cs) h =
          ground (arith, length-append b.flying (c ∷ []), is_some_of_set b.auth_failure)

  pub turns-AddsUp :
      (loops : ℕ) (ts : List Turn) (b : BatchState) → AddsUp n b → AddsUp n (turns cfg loops ts b)
  unfolding turns turn finish_turn
  turns-AddsUp loops [] b h = h
  turns-AddsUp loops (takes ∷ ts) b h =
      turns-AddsUp loops ts (take_turn loops b) (take_turn-AddsUp loops b h)
  turns-AddsUp loops (finishes k now a ∷ ts) b h =
      turns-AddsUp loops ts (finish_turn cfg k now a b) (elim (Option-cases (pull k b.flying)) [
        | inl e ↦ rw (e, finish_turn) h
        | inr ((c, rest), e) ↦
            rw (e, finish_turn)
              (settle-AddsUp now c a (record b { flying = rest })
                (omega (arith, length-pull k b.flying rest c e))
                (ground (arith, length-pull k b.flying rest c e)))
      ])

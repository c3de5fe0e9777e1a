-- ===== src/Worker/Loop.antt =====
-- The ticker, src/lib/worker-loop.ts: how long it waits after each tick.
mod Tests
use ai_email_broadcast_hw.Base.{
  ℕ, zero, suc, ◌*◌, ◌≤◌, ◌≡◌, refl, min, Bool, true, false, List, [], ◌∷◌, ◌++◌, arith, All,
  if◌then◌else◌,
}

abbrev pub retry_base_ms : ℕ
retry_base_ms = 5000

-- RETRY_BASE_MS * 2 ** n.
unfoldable pub doubled : ℕ → ℕ
doubled zero = retry_base_ms
doubled (suc n) = 2 * doubled n

-- The wait after a tick, when so many have failed in a row.
unfoldable pub delay_after : ℕ → ℕ → ℕ
unfolding doubled
delay_after interval zero = interval
delay_after interval (suc n) = min interval (doubled n)

-- The waits of the loop, by whether the server answered each tick.
unfoldable pub waits : ℕ → ℕ → List Bool → List ℕ
unfolding delay_after
waits interval failures [] = []
waits interval failures (ok ∷ oks) =
    let count = if ok then 0 else suc failures in
    delay_after interval count ∷ waits interval count oks

-- A wait that is neither longer than the interval nor shorter than the base, where the interval
-- allows that.
abbrev IsBetween : ℕ → ℕ → Type 0
IsBetween interval d = (min interval retry_base_ms ≤ d) × (d ≤ interval)

doubled_grows : (n : ℕ) → retry_base_ms ≤ doubled n
unfolding doubled
doubled_grows zero = omega arith
doubled_grows (suc n) = omega (arith, doubled_grows n)

delay_after-IsBetween : (interval n : ℕ) → IsBetween interval (delay_after interval n)
unfolding delay_after
delay_after-IsBetween interval zero = (omega arith, omega arith)
delay_after-IsBetween interval (suc n) = (omega (arith, doubled_grows n), omega arith)

-- After any ticks the loop waits for no longer than its interval, and for no less than the base of
-- five seconds or the interval if that is less: a server that is down is asked sooner, but not
-- at once.
waits-IsBetween :
    (interval failures : ℕ) (oks : List Bool)
    → All (IsBetween interval) (waits interval failures oks)
unfolding waits
waits-IsBetween interval failures [] = tt
waits-IsBetween interval failures (ok ∷ oks) =
    (delay_after-IsBetween interval _, waits-IsBetween interval _ oks)

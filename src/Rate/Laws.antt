-- ===== src/Rate/Laws.antt =====
-- The batch never exceeds what the window has left, and is empty only when nothing is left.
use ai_email_broadcast_hw.Base.{
  ℕ, ◌+◌, ◌*◌, ◌/◌, ◌≤◌, ◌<◌, ◌≡◌, ◌↔◌, inl, inr, Option, none, some, arith, Option-cases, ◌⊎◌,
}
use ai_email_broadcast_hw.Rate.{
  Fraction, safety_factor, effective_hourly_limit, remaining_allowance, BatchOptions,
  per_tick_share, batch_size, ceil_div,
}

-- A fraction above 0 and at most 1.
pub record IsShare (f : Fraction) : Type 0 where
  pub positive : 0 < f.num
  pub at_most_one : f.num ≤ f.den

-- Whatever the environment says, the factor is a fraction above 0 and at most 1.
pub safety_factor-IsShare : (env : Option Fraction) → IsShare (safety_factor env)
unfolding safety_factor
safety_factor-IsShare none = omega arith
safety_factor-IsShare (some f) = ground arith

scaled-le : (m : ℕ) (f : Fraction) → IsShare f → m * f.num / f.den ≤ m
scaled-le m f h = grind arith

-- The effective ceiling is at most the configured one, and is 0 only for a configured 0.
pub effective_hourly_limit-le : (m : ℕ) (f : Fraction) → IsShare f → effective_hourly_limit m f ≤ m
unfolding effective_hourly_limit
effective_hourly_limit-le m f h = ground (arith, scaled-le m f h)

-- What is sent already and the next batch stay together within the configured ceiling, or there is no
-- next batch; and a batch is never above the cap.
pub batch_size_fits :
    (o : BatchOptions)
    → IsShare o.factor
    → ((batch_size o ≡ 0) ⊎ (o.sent_in_last_hour + batch_size o ≤ o.max_per_hour))
      × (batch_size o ≤ o.batch_cap)
unfolding batch_size remaining_allowance
batch_size_fits o h = ground (arith, effective_hourly_limit-le o.max_per_hour o.factor h)

ceil_div_pos : (a b n : ℕ) → 0 < a → ceil_div a b ≡ some n → 0 < n
unfolding ceil_div
ceil_div_pos a b n h e = grind arith

per_tick_share_pos :
    (o : BatchOptions) (n : ℕ)
    → 0 < effective_hourly_limit o.max_per_hour o.factor
    → per_tick_share o ≡ some n
    → 0 < n
unfolding per_tick_share
per_tick_share_pos o n h e = ceil_div_pos _ o.window_seconds n (grind arith) e

-- Where the cap lets anything through, a batch is empty exactly when the window is used up.
batch_size-pos_iff :
    (o : BatchOptions)
    → 0 < o.batch_cap
    → (0 < batch_size o) ↔ (o.sent_in_last_hour < effective_hourly_limit o.max_per_hour o.factor)
unfolding batch_size remaining_allowance
batch_size-pos_iff o h = elim (Option-cases (per_tick_share o)) [
  | inl e ↦ rw e (ground arith)
  | inr (n, e) ↦ rw e (ground (arith, per_tick_share_pos o n))
]

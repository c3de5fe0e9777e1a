-- ===== src/Input/Laws.antt =====
-- What the helpers let through is within its limits.
use ai_email_broadcast_hw.Base.{ℕ, ◌≤◌, Bool, ◌&&◌, Text, arith, ltb, if_cases, length}
use ai_email_broadcast_hw.Address.{trim}
use ai_email_broadcast_hw.Audience.{is_empty}
use ai_email_broadcast_hw.Api.{Response, ok, refused}
use ai_email_broadcast_hw.Input.{Value, undefined, null, other, text, within, str, ◌>>=◌}

-- The answer, where there is one.
abbrev pub Answers : {A : Type 0} → (A → Type 0) → Response A → Type 0
Answers P (ok a) = P a
Answers P (refused code key) = Unit

within-Answers :
    (max : ℕ) (required : Bool) (t : Text) → Answers (λ s. length s ≤ max) (within max required t)
within-Answers max required t =
    if_cases (Answers (λ s. length s ≤ max)) (required && is_empty t) (λ e. tt)
      (λ e.
        if_cases (Answers (λ s. length s ≤ max)) (ltb max (length t)) (λ f. tt) (λ f. ground arith))

pub str-Answers :
    (max : ℕ) (required : Bool) (v : Value) → Answers (λ s. length s ≤ max) (str max required v)
unfolding str
str-Answers max required undefined =
    if_cases (Answers (λ s. length s ≤ max)) required (λ e. tt) (λ e. omega arith)
str-Answers max required null =
    if_cases (Answers (λ s. length s ≤ max)) required (λ e. tt) (λ e. omega arith)
str-Answers max required other = tt
str-Answers max required (text t) = within-Answers max required (trim t)

-- A chain of helpers: what the first lets through is what the rest starts from.
pub bind-Answers :
    {A B : Type 0} (Q : A → Type 0) (P : B → Type 0) (r : Response A) (f : A → Response B)
    → Answers Q r
    → ((a : A) → Q a → Answers P (f a))
    → Answers P (r >>= f)
bind-Answers Q P (ok a) f h k = k a h
bind-Answers Q P (refused code key) f h k = tt

pub any-Answers : {A : Type 0} (r : Response A) → Answers (λ a. Unit {0}) r
any-Answers (ok a) = tt
any-Answers (refused code key) = tt

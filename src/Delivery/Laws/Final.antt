-- ===== src/Delivery/Laws/Final.antt =====
-- A row that was sent, failed, suppressed or cancelled stays so, through every history.
use ai_email_broadcast_hw.Base.{
  ℕ, ◌≡◌, refl, ◌∙◌, Bool, true, false, List, [], ◌∷◌, Pointwise, Pointwise-mono,
}
use ai_email_broadcast_hw.Base.Keys.{Distinct}
use ai_email_broadcast_hw.Store.{Store, Recipient}
use ai_email_broadcast_hw.Store.Status.{DeliveryStatus}
use ai_email_broadcast_hw.Queue.{Config}
use ai_email_broadcast_hw.Queue.Claim.{ids}
use ai_email_broadcast_hw.Delivery.{Event, step, run}
use ai_email_broadcast_hw.Delivery.Rows.{
  Moves, stay, claimed, withdrawn, called_off, put_back, delivered, given_up, held_back,
  SameAddressee,
}
use ai_email_broadcast_hw.Delivery.Laws.{step-Evolves, step-ids}

abbrev pub is_final : DeliveryStatus → Bool
is_final DeliveryStatus.queued = false
is_final DeliveryStatus.sending = false
is_final DeliveryStatus.sent = true
is_final DeliveryStatus.failed = true
is_final DeliveryStatus.suppressed = true
is_final DeliveryStatus.cancelled = true

-- A final status is kept, and the row still belongs to the same person and campaign.
pub record Settles (r q : Recipient) : Type 0 where
  pub kept : is_final r.delivery_status ≡ true → q.delivery_status ≡ r.delivery_status
  pub same : SameAddressee r q

Moves-final : {d e : DeliveryStatus} → Moves d e → is_final d ≡ true → e ≡ d
Moves-final stay h = refl
Moves-final claimed h = cc
Moves-final withdrawn h = cc
Moves-final called_off h = cc
Moves-final put_back h = cc
Moves-final delivered h = cc
Moves-final given_up h = cc
Moves-final held_back h = cc

Settles-refl : (r : Recipient) → Settles r r
Settles-refl r = record {
  kept = λ h. refl;
  same = record {
    same_id = refl;
    same_campaign = refl;
    same_email = refl;
    same_key = refl;
    same_token = refl;
  };
}

Settles-trans : (r q t : Recipient) → Settles r q → Settles q t → Settles r t
Settles-trans r q t a b = record {
  kept = λ h. let e = a.kept h in b.kept (rw e h) ∙ e;
  same = record {
    same_id = b.same.same_id ∙ a.same.same_id;
    same_campaign = b.same.same_campaign ∙ a.same.same_campaign;
    same_email = b.same.same_email ∙ a.same.same_email;
    same_key = b.same.same_key ∙ a.same.same_key;
    same_token = b.same.same_token ∙ a.same.same_token;
  };
}

all_settle : (rs : List Recipient) → Pointwise Settles rs rs
all_settle [] = tt
all_settle (r ∷ rs) = (Settles-refl r, all_settle rs)

settle_trans :
    (rs qs ts : List Recipient)
    → Pointwise Settles rs qs
    → Pointwise Settles qs ts
    → Pointwise Settles rs ts
settle_trans [] [] ts h k = k
settle_trans [] (q ∷ qs) ts h k = elim h [ ]
settle_trans (r ∷ rs) [] ts h k = elim h [ ]
settle_trans (r ∷ rs) (q ∷ qs) [] h k = elim k [ ]
settle_trans (r ∷ rs) (q ∷ qs) (t ∷ ts) (h, hs) (k, ks) =
    (Settles-trans r q t h k, settle_trans rs qs ts hs ks)

-- A final status is kept through every history, and every row keeps its address and
-- campaign; the rows have different ids.
pub run-Settles :
    (cfg : Config) (es : List (ℕ × Event)) (s : Store)
    → Distinct (ids s.recipients)
    → Pointwise Settles s.recipients (run cfg es s).recipients
unfolding run
run-Settles cfg [] s keys = all_settle s.recipients
run-Settles cfg ((now, e) ∷ es) s keys =
    settle_trans s.recipients (step cfg now e s).recipients _
      (Pointwise-mono _ _ s.recipients _
        (λ r q h. record { kept = Moves-final h.moves; same = h.same })
        (step-Evolves cfg now e s keys))
      (run-Settles cfg es (step cfg now e s) (rw (step-ids cfg now e s keys) keys))

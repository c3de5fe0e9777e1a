-- ===== src/Tracking.antt =====
-- The open-tracking pixel, src/app/api/track/open/[token]/route.ts: the one UPDATE it makes.
use ai_email_broadcast_hw.Base.{
  ℕ, ◌+◌, ◌&&◌, some, Text, leb, if◌then◌else◌, update_where, length, text_eq, coalesce,
}
use ai_email_broadcast_hw.Store.{Store, Recipient}

unfoldable pub open_row : ℕ → Recipient → Recipient
open_row now r = record r {
  first_opened_at = coalesce r.first_opened_at (some now);
  last_opened_at = some now;
  open_count = r.open_count + 1;
}

unfoldable pub record_open : ℕ → Text → Store → Store
unfolding open_row
record_open now token s =
    if leb 16 (length token) && leb (length token) 128
    then record s {
      recipients = update_where (λ r. text_eq r.tracking_token token) (open_row now) s.recipients;
    }
    else s

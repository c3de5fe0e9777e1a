-- ===== src/Csv/Tests.antt =====
-- A table with delimiters, quotes and line ends in its fields, printed and read back, and a text
-- as a person may write it.
use ai_email_broadcast_hw.Base.{◌≡◌, refl, List, [], ◌∷◌, Text}
use ai_email_broadcast_hw.Address.{trim}
use ai_email_broadcast_hw.Csv.{parse_csv, quote, line_feed}
use ai_email_broadcast_hw.Csv.Printed.{print_rows}
use ai_email_broadcast_hw.Csv.RoundTrip.{parse_csv-print_rows, IsRow}

abbrev comma : Text
comma = b',' ∷ []

abbrev hard : List (List Text)
hard =
    ((b' ' ∷ quote ∷ b',' ∷ []) ∷ (line_feed ∷ 13 ∷ b'a' ∷ []) ∷ [] ∷ []) ∷ ((b'x' ∷ []) ∷ []) ∷ []

-- "a, b" CR LF LF "c,"
by_hand :
    parse_csv b',' (b'a' ∷ b',' ∷ b' ' ∷ b'b' ∷ 13 ∷ line_feed ∷ line_feed ∷ b'c' ∷ b',' ∷ [])
    ≡ ((b'a' ∷ []) ∷ (b'b' ∷ []) ∷ []) ∷ ((b'c' ∷ []) ∷ [] ∷ []) ∷ []
unfolding parse_csv trim
by_hand = refl

parse_csv-print_rows_example : parse_csv b',' (print_rows b',' hard) ≡ hard
unfolding IsRow
parse_csv-print_rows_example = parse_csv-print_rows b',' hard refl refl (refl, (refl, tt))

-- ===== src/Csv/Printed.antt =====
-- The text of a table after RFC 4180, each field in quotes and each row ended by a line feed: what
-- the reader is to read back.
use ai_email_broadcast_hw.Base.{ℕ, List, [], ◌∷◌, ◌++◌, Text, ◌==◌, if◌then◌else◌}
use ai_email_broadcast_hw.Csv.{quote, line_feed}

abbrev pub escape : Text → Text
escape [] = []
escape (c ∷ cs) = if c == quote then quote ∷ quote ∷ escape cs else c ∷ escape cs

-- A field, and the text after it.
abbrev pub print_field : Text → Text → Text
print_field t rest = quote ∷ (escape t ++ quote ∷ rest)

-- A row has one field at least.
abbrev pub print_row : ℕ → Text → List Text → Text → Text
print_row d t [] rest = print_field t (line_feed ∷ rest)
print_row d t (u ∷ ts) rest = print_field t (d ∷ print_row d u ts rest)

-- A table of rows that are not empty.
abbrev pub print_rows : ℕ → List (List Text) → Text
print_rows d [] = []
print_rows d ([] ∷ rows) = print_rows d rows
print_rows d ((t ∷ ts) ∷ rows) = print_row d t ts (print_rows d rows)

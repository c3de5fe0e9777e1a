-- ===== src/Csv.antt =====
-- The CSV reader, src/lib/csv.ts: `stripBom` and `parseCsv`. A text is its UTF-16 code units.
pub mod Printed
pub mod RoundTrip
mod Tests
use ai_email_broadcast_hw.Base.{
  ℕ, Bool, true, false, not, ◌&&◌, ◌||◌, Option, none, some, List, [], ◌∷◌, ◌++◌, Text, ltb, ◌==◌,
  if◌then◌else◌, length,
}
use ai_email_broadcast_hw.Address.{trim}

abbrev pub quote : ℕ
quote = 34

abbrev pub line_feed : ℕ
line_feed = 10

abbrev pub carriage_return : ℕ
carriage_return = 13

unfoldable pub strip_bom : Text → Text
strip_bom [] = []
strip_bom (c ∷ cs) = if c == 0xfeff then cs else c ∷ cs

-- The variables of `parseCsv`; `skip` says that the quote that comes next is the second of two,
-- which `i++` passes over.
pub record Scan : Type 0 where
  pub rows : List (List Text)
  pub row : List Text
  pub field : Text
  pub in_quotes : Bool
  pub field_was_quoted : Bool
  pub skip : Bool

abbrev pub is_empty_text : Text → Bool
is_empty_text [] = true
is_empty_text (c ∷ cs) = false

unfoldable pub push_field : Scan → Scan
push_field s = record s {
  row = s.row ++ (if s.field_was_quoted then s.field else trim s.field) ∷ [];
  field = [];
  field_was_quoted = false;
}

-- `row.length > 1 || row[0] !== ""`.
abbrev pub is_filled : List Text → Bool
is_filled [] = true
is_filled (t ∷ []) = not (is_empty_text t)
is_filled (t ∷ u ∷ ts) = true

abbrev pub keep_row : Scan → Scan
keep_row s = record s { rows = if is_filled s.row then s.rows ++ s.row ∷ [] else s.rows; row = [] }

unfoldable pub push_row : Scan → Scan
unfolding push_field
push_row s = keep_row (push_field s)

abbrev pub add_char : ℕ → Scan → Scan
add_char c s = record s { field = s.field ++ c ∷ [] }

abbrev pub starts_with : ℕ → Text → Bool
starts_with d [] = false
starts_with d (c ∷ cs) = c == d

-- One character, and the text after it.
unfoldable pub read_quoted : ℕ → Text → Scan → Scan
read_quoted c cs s =
    if c == quote
    then (if starts_with quote cs
        then record (add_char quote s) { skip = true }
        else record s { in_quotes = false })
    else add_char c s

unfoldable pub read_plain : ℕ → ℕ → Scan → Scan
unfolding push_field push_row
read_plain delimiter c s =
    if c == quote && is_empty_text (trim s.field)
    then record s { in_quotes = true; field_was_quoted = true; field = [] }
    else if c == delimiter
    then push_field s
    else if c == carriage_return
    then s
    else if c == line_feed
    then push_row s
    else add_char c s

unfoldable pub read_char : ℕ → ℕ → Text → Scan → Scan
unfolding read_quoted read_plain
read_char delimiter c cs s =
    if s.skip
    then record s { skip = false }
    else if s.in_quotes
    then read_quoted c cs s
    else read_plain delimiter c s

unfoldable pub scan : ℕ → Scan → Text → Scan
unfolding read_char
scan delimiter s [] = s
scan delimiter s (c ∷ cs) = scan delimiter (read_char delimiter c cs s) cs

abbrev pub start : Scan
start = record {
  rows = [];
  row = [];
  field = [];
  in_quotes = false;
  field_was_quoted = false;
  skip = false;
}

abbrev pub has_rest : Scan → Bool
has_rest s = ltb 0 (length s.field) || ltb 0 (length s.row)

unfoldable pub finish : Scan → List (List Text)
unfolding push_row
finish s = (if has_rest s then push_row s else s).rows

unfoldable pub parse_csv : ℕ → Text → List (List Text)
unfolding strip_bom scan finish
parse_csv delimiter text = finish (scan delimiter start (strip_bom text))

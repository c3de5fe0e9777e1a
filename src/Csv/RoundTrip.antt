-- ===== src/Csv/RoundTrip.antt =====
-- What the reader makes of a printed table.
use ai_email_broadcast_hw.Base.{
  ℕ, ◌≡◌, refl, sym, ap, ◌∙◌, inl, inr, true, false, List, [], ◌∷◌, ◌++◌, Text, ◌==◌, ==_refl,
  Impossible, if◌then◌else◌, arith, Bool-cases, All,
}
use mathlib.Core.List.{append_assoc, append-nil}
use ai_email_broadcast_hw.Address.{trim}
use ai_email_broadcast_hw.Csv.{
  Scan, quote, line_feed, strip_bom, is_filled, scan, start, finish, parse_csv,
}
use ai_email_broadcast_hw.Csv.Printed.{escape, print_field, print_row, print_rows}

-- Between two rows or fields: `done` are the rows, `row` the fields so far.
abbrev between : List (List Text) → List Text → Scan
between done row = record {
  rows = done;
  row = row;
  field = [];
  in_quotes = false;
  field_was_quoted = false;
  skip = false;
}

-- In quotes, with `f` read.
abbrev quoted : List (List Text) → List Text → Text → Scan
quoted done row f = record {
  rows = done;
  row = row;
  field = f;
  in_quotes = true;
  field_was_quoted = true;
  skip = false;
}

-- After the quotes.
abbrev closed : List (List Text) → List Text → Text → Scan
closed done row f = record {
  rows = done;
  row = row;
  field = f;
  in_quotes = false;
  field_was_quoted = true;
  skip = false;
}

-- A row that the reader keeps.
unfoldable pub IsRow : List Text → Type 0
IsRow [] = Impossible
IsRow (t ∷ ts) = is_filled (t ∷ ts) ≡ true

abbrev with_row : List (List Text) → List Text → List (List Text)
with_row done row = if is_filled row then done ++ row ∷ [] else done

with_row_filled :
    (done : List (List Text)) (row : List Text)
    → is_filled row ≡ true
    → with_row done row ≡ done ++ row ∷ []
with_row_filled done row h = rw h refl

same_character : (a b : ℕ) → (a == b) ≡ true → a ≡ b
same_character a b h = ground arith

module _ (d : ℕ) (plain : (d == quote) ≡ false) where
  scan_opens :
      (done : List (List Text)) (row : List Text) (rest : Text)
      → scan d (between done row) (quote ∷ rest) ≡ scan d (quoted done row []) rest
  unfolding scan trim
  scan_opens done row rest = refl

  scan_doubled :
      (done : List (List Text)) (row : List Text) (f rest : Text)
      → scan d (quoted done row f) (quote ∷ quote ∷ rest)
        ≡ scan d (quoted done row (f ++ quote ∷ [])) rest
  unfolding scan
  scan_doubled done row f rest = refl

  scan_other :
      (done : List (List Text)) (row : List Text) (f : Text) (c : ℕ) (rest : Text)
      → (c == quote) ≡ false
      → scan d (quoted done row f) (c ∷ rest) ≡ scan d (quoted done row (f ++ c ∷ [])) rest
  unfolding scan
  scan_other done row f c rest h = rw h refl

  scan_closes :
      (done : List (List Text)) (row : List Text) (f : Text) (e : ℕ) (rest : Text)
      → (e == quote) ≡ false
      → scan d (quoted done row f) (quote ∷ e ∷ rest) ≡ scan d (closed done row f) (e ∷ rest)
  unfolding scan
  scan_closes done row f e rest h = rw h refl

  scan_escaped :
      (done : List (List Text)) (row : List Text) (f t : Text) (e : ℕ) (rest : Text)
      → (e == quote) ≡ false
      → scan d (quoted done row f) (escape t ++ quote ∷ e ∷ rest)
        ≡ scan d (closed done row (f ++ t)) (e ∷ rest)
  scan_escaped done row f [] e rest h =
      scan_closes done row f e rest h
      ∙ ap (λ g. scan d (closed done row g) (e ∷ rest)) (sym (append-nil f))
  scan_escaped done row f (c ∷ t) e rest h =
      let tail =
        scan_escaped done row (f ++ c ∷ []) t e rest h
        ∙ ap (λ g. scan d (closed done row g) (e ∷ rest)) (append_assoc f (c ∷ []) t) in
      elim (Bool-cases (c == quote)) [
        | inr q ↦ rw q (scan_other done row f c (escape t ++ quote ∷ e ∷ rest) q ∙ tail)
        | inl q ↦ rw q (
            scan_doubled done row f (escape t ++ quote ∷ e ∷ rest)
            ∙ ap (λ x. scan d (quoted done row (f ++ x ∷ [])) (escape t ++ quote ∷ e ∷ rest))
                (sym (same_character c quote q))
            ∙ tail)
      ]

  scan_field :
      (done : List (List Text)) (row : List Text) (t : Text) (e : ℕ) (rest : Text)
      → (e == quote) ≡ false
      → scan d (between done row) (print_field t (e ∷ rest)) ≡ scan d (closed done row t) (e ∷ rest)
  scan_field done row t e rest h =
      scan_opens done row (escape t ++ quote ∷ e ∷ rest) ∙ scan_escaped done row [] t e rest h

  scan_delimiter :
      (done : List (List Text)) (row : List Text) (t rest : Text)
      → scan d (closed done row t) (d ∷ rest) ≡ scan d (between done (row ++ t ∷ [])) rest
  unfolding scan
  scan_delimiter done row t rest = rw (plain, ==_refl d) refl

  module _ (one_line : (line_feed == d) ≡ false) where
    scan_ends_row :
        (done : List (List Text)) (row : List Text) (t rest : Text)
        → scan d (closed done row t) (line_feed ∷ rest)
          ≡ scan d (between (with_row done (row ++ t ∷ [])) []) rest
    unfolding scan
    scan_ends_row done row t rest = rw one_line refl

    scan_row :
        (done : List (List Text)) (row : List Text) (t : Text) (ts : List Text) (rest : Text)
        → scan d (between done row) (print_row d t ts rest)
          ≡ scan d (between (with_row done (row ++ t ∷ ts)) []) rest
    scan_row done row t [] rest =
        scan_field done row t line_feed rest refl ∙ scan_ends_row done row t rest
    scan_row done row t (u ∷ ts) rest =
        scan_field done row t d (print_row d u ts rest) plain
        ∙ scan_delimiter done row t (print_row d u ts rest)
        ∙ scan_row done (row ++ t ∷ []) u ts rest
        ∙ ap (λ r. scan d (between (with_row done r) []) rest) (append_assoc row (t ∷ []) (u ∷ ts))

    scan_rows :
        (done rows : List (List Text))
        → All IsRow rows
        → scan d (between done []) (print_rows d rows) ≡ between (done ++ rows) []
    unfolding scan IsRow
    scan_rows done [] h = ap (λ r. between r []) (sym (append-nil done))
    scan_rows done ([] ∷ rows) (h, hs) = elim h [ ]
    scan_rows done ((t ∷ ts) ∷ rows) (h, hs) =
        scan_row done [] t ts (print_rows d rows)
        ∙ ap (λ r. scan d (between r []) (print_rows d rows)) (with_row_filled done (t ∷ ts) h)
        ∙ scan_rows (done ++ (t ∷ ts) ∷ []) rows hs
        ∙ ap (λ r. between r []) (append_assoc done ((t ∷ ts) ∷ []) rows)

-- A printed table starts with a quote, if with anything.
strip_bom-print_rows :
    (d : ℕ) (rows : List (List Text))
    → All IsRow rows
    → strip_bom (print_rows d rows) ≡ print_rows d rows
unfolding strip_bom IsRow
strip_bom-print_rows d [] h = refl
strip_bom-print_rows d ([] ∷ rows) (h, hs) = elim h [ ]
strip_bom-print_rows d ((t ∷ []) ∷ rows) h = refl
strip_bom-print_rows d ((t ∷ u ∷ ts) ∷ rows) h = refl

-- What is printed in quotes is read back as it was, field by field, with whatever delimiters,
-- quotes, line ends and white space the fields hold, where the delimiter is neither a quote nor a
-- line feed, and each row has one field at least and is not one empty field alone.
pub parse_csv-print_rows :
    (d : ℕ) (rows : List (List Text))
    → (d == quote) ≡ false
    → (line_feed == d) ≡ false
    → All IsRow rows
    → parse_csv d (print_rows d rows) ≡ rows
unfolding parse_csv
parse_csv-print_rows d rows plain one_line h =
    ap (λ t. finish (scan d start t)) (strip_bom-print_rows d rows h)
    ∙ ap finish (scan_rows d plain one_line [] rows h)

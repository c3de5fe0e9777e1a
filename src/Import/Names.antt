-- ===== src/Import/Names.antt =====
-- An import fills in the names of the contacts that are there, and blanks none.
use ai_email_broadcast_hw.Base.{
  ℕ, zero, suc, ◌≡◌, refl, sym, subst, Bool, true, false, not, Option, none, some, List, [], ◌∷◌,
  Text, if_both, length, take, drop, any, coalesce, Impossible, All, All-append, All-take, All-drop,
  All-select,
}
use ai_email_broadcast_hw.Address.{trim, normalize_email}
use ai_email_broadcast_hw.Address.Valid.{is_valid_email}
use ai_email_broadcast_hw.Store.{Store, Contact}
use ai_email_broadcast_hw.Import.{
  ImportRow, ValidRow, Prepared, ImportSummary, is_seen, is_blank, address_of, text_of,
  some_if_filled, empty_to_null, valid_row, prepare_row, prepare_from, prepare_rows, has_email,
  fill_in, upsert_contact, upsert_contacts, import_chunk, import_chunks, import_contacts,
  chunk_size, is_sendable, sendable_rows, rows_to_send, start_summary,
}
use ai_email_broadcast_hw.Import.Keeps.{
  Extends, Extends-refl, Extends-trans, Extends-append, Extends-update, attach-contacts,
}

-- There is a text, and it has a character.
abbrev pub has_text : Option Text → Bool
has_text none = false
has_text (some []) = false
has_text (some (a ∷ t)) = true

-- No text, or one with a character.
abbrev IsFilled : Option Text → Type 0
IsFilled none = Unit
IsFilled (some []) = Impossible
IsFilled (some (a ∷ t)) = Unit

abbrev NamesFilled : ValidRow → Type 0
NamesFilled r = IsFilled r.first_name × IsFilled r.last_name

some_if_filled-IsFilled : (t : Text) → IsFilled (some_if_filled t)
some_if_filled-IsFilled [] = tt
some_if_filled-IsFilled (a ∷ t) = tt

empty_to_null-IsFilled : (value : Option Text) → IsFilled (empty_to_null value)
unfolding empty_to_null
empty_to_null-IsFilled value = some_if_filled-IsFilled (trim (text_of value))

module _ (lower : Text → Text) where
  prepare_row-NamesFilled :
      (p : Prepared) (row : ImportRow)
      → All NamesFilled p.valid
      → All NamesFilled (prepare_row lower p row).valid
  unfolding prepare_row
  prepare_row-NamesFilled p row h =
      let Filled : Prepared → Type 0 = λ q. All NamesFilled q.valid in
      let taken : All NamesFilled (valid_row lower row ∷ []) =
        ((empty_to_null-IsFilled row.first_name, empty_to_null-IsFilled row.last_name), tt) in
      if_both Filled (not (is_valid_email (address_of row)))
        (if_both Filled (is_blank (address_of row)) h h)
        (if_both Filled (is_seen (normalize_email lower (address_of row)) p.valid) h
          (All-append NamesFilled p.valid (valid_row lower row ∷ []) h taken))

  prepare_from-NamesFilled :
      (p : Prepared) (rows : List ImportRow)
      → All NamesFilled p.valid
      → All NamesFilled (prepare_from lower p rows).valid
  unfolding prepare_from
  prepare_from-NamesFilled p [] h = h
  prepare_from-NamesFilled p (row ∷ rows) h =
      prepare_from-NamesFilled (prepare_row lower p row) rows (prepare_row-NamesFilled p row h)

  rows_to_send-NamesFilled :
      (limit : ℕ) (rows : List ImportRow) (s : Store)
      → All NamesFilled (rows_to_send lower limit rows s)
  unfolding sendable_rows prepare_rows
  rows_to_send-NamesFilled limit rows s =
      All-select NamesFilled (is_sendable s) (prepare_rows lower (take limit rows)).valid
        (prepare_from-NamesFilled _ (take limit rows) tt)

-- A first or last name that has a character is the same or another one that has.
pub record KeepsNames (c d : Contact) : Type 0 where
  pub first_kept : has_text c.first_name ≡ true → has_text d.first_name ≡ true
  pub last_kept : has_text c.last_name ≡ true → has_text d.last_name ≡ true

KeepsNames-refl : (c : Contact) → KeepsNames c c
KeepsNames-refl c = record { first_kept = λ h. h; last_kept = λ h. h }

KeepsNames-trans : (c d e : Contact) → KeepsNames c d → KeepsNames d e → KeepsNames c e
KeepsNames-trans c d e h g = record {
  first_kept = λ x. g.first_kept (h.first_kept x);
  last_kept = λ x. g.last_kept (h.last_kept x);
}

has_text-coalesce :
    (a b : Option Text) → IsFilled a → has_text b ≡ true → has_text (coalesce a b) ≡ true
has_text-coalesce none b f h = h
has_text-coalesce (some []) b f h = elim f [ ]
has_text-coalesce (some (x ∷ t)) b f h = refl

KeepsNames-fill_in :
    (now : ℕ) (r : ValidRow) (c : Contact) → NamesFilled r → KeepsNames c (fill_in now r c)
unfolding fill_in
KeepsNames-fill_in now r c (first, last) = record {
  first_kept = has_text-coalesce r.first_name c.first_name first;
  last_kept = has_text-coalesce r.last_name c.last_name last;
}

abbrev pub NamesKept : List Contact → List Contact → Type 0
NamesKept xs ys = Extends KeepsNames xs ys

NamesKept-refl : (xs : List Contact) → NamesKept xs xs
NamesKept-refl xs = Extends-refl KeepsNames xs KeepsNames-refl

NamesKept-trans : (xs ys zs : List Contact) → NamesKept xs ys → NamesKept ys zs → NamesKept xs zs
NamesKept-trans xs ys zs h g = Extends-trans KeepsNames xs ys zs KeepsNames-trans h g

upsert_contact-NamesKept :
    (now : ℕ) (r : ValidRow) (s : Store)
    → NamesFilled r
    → NamesKept s.contacts (upsert_contact now r s).contacts
unfolding upsert_contact
upsert_contact-NamesKept now r s f =
    if_both (λ (t : Store). NamesKept s.contacts t.contacts)
      (any (has_email r.email_normalized) s.contacts)
      (Extends-update KeepsNames _ (fill_in now r) s.contacts KeepsNames-refl
        (λ c. KeepsNames-fill_in now r c f))
      (Extends-append KeepsNames s.contacts _ KeepsNames-refl)

upsert_contacts-NamesKept :
    (now : ℕ) (rs : List ValidRow) (s : Store)
    → All NamesFilled rs
    → NamesKept s.contacts (upsert_contacts now rs s).contacts
unfolding upsert_contacts
upsert_contacts-NamesKept now [] s f = NamesKept-refl s.contacts
upsert_contacts-NamesKept now (r ∷ rs) s (f, fs) =
    NamesKept-trans s.contacts _ _ (upsert_contact-NamesKept now r s f)
      (upsert_contacts-NamesKept now rs (upsert_contact now r s) fs)

import_chunk-NamesKept :
    (list : Option ℕ) (now : ℕ) (rs : List ValidRow) (p : ImportSummary × Store)
    → All NamesFilled rs
    → NamesKept p.1.contacts (import_chunk list now rs p).1.contacts
unfolding import_chunk
import_chunk-NamesKept list now rs (summary, s) f =
    subst (NamesKept s.contacts) (sym (attach-contacts list _ summary (upsert_contacts now rs s)))
      (upsert_contacts-NamesKept now rs s f)

import_chunks-NamesKept :
    (fuel : ℕ) (list : Option ℕ) (now : ℕ) (rs : List ValidRow) (p : ImportSummary × Store)
    → All NamesFilled rs
    → NamesKept p.1.contacts (import_chunks fuel list now rs p).1.contacts
unfolding import_chunks
import_chunks-NamesKept fuel list now [] p f = NamesKept-refl p.1.contacts
import_chunks-NamesKept zero list now (r ∷ rs) p f = NamesKept-refl p.1.contacts
import_chunks-NamesKept (suc fuel) list now (r ∷ rs) p f =
    let q = import_chunk list now (take chunk_size (r ∷ rs)) p in
    NamesKept-trans p.1.contacts q.1.contacts _
      (import_chunk-NamesKept list now (take chunk_size (r ∷ rs)) p
        (All-take NamesFilled chunk_size (r ∷ rs) f))
      (import_chunks-NamesKept fuel list now (drop chunk_size (r ∷ rs)) q
        (All-drop NamesFilled chunk_size (r ∷ rs) f))

pub import_contacts-NamesKept :
    (lower : Text → Text) (limit now : ℕ) (list : Option ℕ) (rows : List ImportRow) (s : Store)
    → NamesKept s.contacts (import_contacts lower limit now list rows s).1.contacts
unfolding import_contacts
import_contacts-NamesKept lower limit now list rows s =
    import_chunks-NamesKept (length (rows_to_send lower limit rows s)) list now
      (rows_to_send lower limit rows s) (start_summary lower limit rows s, s)
      (rows_to_send-NamesFilled lower limit rows s)

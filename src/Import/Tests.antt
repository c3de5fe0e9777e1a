-- ===== src/Import/Tests.antt =====
-- An import of five rows into a list: one new contact, one suppressed, one repeated, one invalid and
-- one without an address.
use ai_email_broadcast_hw.Base.{
  ◌+◌, ◌≡◌, refl, Option, none, some, List, [], ◌∷◌, Text, All, length, count_where, text_eq,
}
use ai_email_broadcast_hw.Address.{lower_ascii, trim, normalize_email}
use ai_email_broadcast_hw.Address.Valid.{is_valid_email}
use ai_email_broadcast_hw.Store.{Store}
use ai_email_broadcast_hw.Suppression.{suppress_email}
use ai_email_broadcast_hw.Samples.{store, request}
use ai_email_broadcast_hw.Import.{ImportRow, import_contacts, prepare_rows, rows_to_send}
use ai_email_broadcast_hw.Import.Prepare.{IsSound, prepare_rows-IsSound, counted, has_no_address}
use ai_email_broadcast_hw.Import.Keeps.{KeepsAll}
use ai_email_broadcast_hw.Import.Names.{NamesKept}
use ai_email_broadcast_hw.Import.Complete.{IsStored, import_contacts_complete}
use ai_email_broadcast_hw.Import.Consent.{AddsFree, import_contacts-AddsFree}

-- "a@b.co", " A@B.CO", "d@b.co" and "a@".
abbrev ada : Text
ada = b'a' ∷ b'@' ∷ b'b' ∷ b'.' ∷ b'c' ∷ b'o' ∷ []

abbrev ada_again : Text
ada_again = 32 ∷ b'A' ∷ b'@' ∷ b'B' ∷ b'.' ∷ b'C' ∷ b'O' ∷ []

abbrev dan : Text
dan = b'd' ∷ b'@' ∷ b'b' ∷ b'.' ∷ b'c' ∷ b'o' ∷ []

abbrev cut : Text
cut = b'a' ∷ b'@' ∷ []

abbrev row : Option Text → ImportRow
row email = record { email = email; first_name = none; last_name = none; custom_fields = none }

abbrev rows : List ImportRow
rows = row (some ada) ∷ row (some dan) ∷ row (some ada_again) ∷ row (some cut) ∷ row none ∷ []

abbrev without_dan : Store
without_dan = suppress_email 1 (record request { email = dan; email_normalized = dan }) store

imported : (import_contacts lower_ascii 100 2000 (some 5) rows without_dan).0 ≡ record {
  received = 5;
  imported = 1;
  duplicates = 1;
  invalid = 1;
  skipped_suppressed = 1;
  invalid_samples = cut ∷ [];
}
unfolding import_contacts suppress_email lower_ascii is_valid_email trim text_eq normalize_email
imported = refl

prepare_rows-IsSound_example :
    IsSound lower_ascii (prepare_rows lower_ascii rows)
    × (counted (prepare_rows lower_ascii rows) + count_where has_no_address rows ≡ length rows)
prepare_rows-IsSound_example = prepare_rows-IsSound lower_ascii rows

import_contacts-AddsFree_example :
    AddsFree without_dan.suppressions without_dan.members
      (import_contacts lower_ascii 100 2000 (some 5) rows without_dan).1
import_contacts-AddsFree_example =
    import_contacts-AddsFree lower_ascii 100 2000 (some 5) rows without_dan

import_contacts_complete_example :
    All
      (IsStored (import_contacts lower_ascii 100 2000 (some 5) rows without_dan).1.contacts)
      (rows_to_send lower_ascii 100 rows without_dan)
    × KeepsAll without_dan.contacts
        (import_contacts lower_ascii 100 2000 (some 5) rows without_dan).1.contacts
    × NamesKept without_dan.contacts
        (import_contacts lower_ascii 100 2000 (some 5) rows without_dan).1.contacts
import_contacts_complete_example =
    import_contacts_complete lower_ascii 100 2000 (some 5) rows without_dan

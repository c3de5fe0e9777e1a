-- ===== src/Import.antt =====
-- The import of contacts, src/lib/import.ts. The list that is imported into exists: the routes look
-- it up before they call.
pub mod Prepare
pub mod Keeps
pub mod Names
pub mod Consent
pub mod Complete
mod Tests
use ai_email_broadcast_hw.Base.{
  ℕ, zero, suc, ◌+◌, ◌-◌, Bool, true, false, not, ◌&&◌, ◌||◌, Option, none, some, List, [], ◌∷◌,
  ◌++◌, Text, ◌==◌, if◌then◌else◌, select, update_where, length, take, drop, text_eq, any, map,
  coalesce,
}
use ai_email_broadcast_hw.Address.{trim, normalize_email}
use ai_email_broadcast_hw.Address.Valid.{is_valid_email}
use ai_email_broadcast_hw.Store.{Store, Contact, Membership}
use ai_email_broadcast_hw.Queue.{is_suppressed}

pub record ImportRow : Type 0 where
  pub email : Option Text
  pub first_name : Option Text
  pub last_name : Option Text
  -- The JSON text.
  pub custom_fields : Option Text

pub record ValidRow : Type 0 where
  pub email : Text
  pub email_normalized : Text
  pub first_name : Option Text
  pub last_name : Option Text
  pub custom_fields : Option Text

pub record ImportSummary : Type 0 where
  pub received : ℕ
  pub imported : ℕ
  pub duplicates : ℕ
  pub invalid : ℕ
  pub skipped_suppressed : ℕ
  pub invalid_samples : List Text

pub record Prepared : Type 0 where
  pub valid : List ValidRow
  pub invalid : List Text
  pub duplicates_in_input : ℕ

abbrev pub text_of : Option Text → Text
text_of none = []
text_of (some t) = t

abbrev pub some_if_filled : Text → Option Text
some_if_filled [] = none
some_if_filled (c ∷ cs) = some (c ∷ cs)

unfoldable pub empty_to_null : Option Text → Option Text
empty_to_null value = some_if_filled (trim (text_of value))

-- The set `seen` has the keys of the rows that were taken.
abbrev pub is_seen : Text → List ValidRow → Bool
is_seen key rows = any (λ (r : ValidRow). text_eq r.email_normalized key) rows

abbrev pub is_blank : Text → Bool
is_blank [] = true
is_blank (c ∷ cs) = false

abbrev pub address_of : ImportRow → Text
address_of row = trim (text_of row.email)

abbrev pub valid_row : (Text → Text) → ImportRow → ValidRow
valid_row lower row = record {
  email = address_of row;
  email_normalized = normalize_email lower (address_of row);
  first_name = empty_to_null row.first_name;
  last_name = empty_to_null row.last_name;
  custom_fields = row.custom_fields;
}

unfoldable pub prepare_row : (Text → Text) → Prepared → ImportRow → Prepared
prepare_row lower p row =
    if not (is_valid_email (address_of row))
    then (if is_blank (address_of row)
        then p
        else record p { invalid = p.invalid ++ address_of row ∷ [] })
    else if is_seen (normalize_email lower (address_of row)) p.valid
    then record p { duplicates_in_input = suc p.duplicates_in_input }
    else record p { valid = p.valid ++ valid_row lower row ∷ [] }

unfoldable pub prepare_from : (Text → Text) → Prepared → List ImportRow → Prepared
unfolding prepare_row
prepare_from lower p [] = p
prepare_from lower p (row ∷ rows) = prepare_from lower (prepare_row lower p row) rows

unfoldable pub prepare_rows : (Text → Text) → List ImportRow → Prepared
unfolding prepare_from
prepare_rows lower rows =
    prepare_from lower (record { valid = []; invalid = []; duplicates_in_input = 0 }) rows

abbrev pub has_email : Text → Contact → Bool
has_email key c = text_eq c.email_normalized key

-- SET first_name = COALESCE(excluded.first_name, contacts.first_name), and the last name so.
unfoldable pub fill_in : ℕ → ValidRow → Contact → Contact
fill_in now r c = record c {
  first_name = coalesce r.first_name c.first_name;
  last_name = coalesce r.last_name c.last_name;
  updated_at = now;
}

-- "{}"
abbrev pub empty_object : Text
empty_object = 123 ∷ 125 ∷ []

abbrev pub fields_of : Option Text → Text
fields_of none = empty_object
fields_of (some t) = t

abbrev pub new_contact : ℕ → ℕ → ValidRow → Contact
new_contact i now r = record {
  id = i;
  email = r.email;
  email_normalized = r.email_normalized;
  first_name = r.first_name;
  last_name = r.last_name;
  custom_fields = fields_of r.custom_fields;
  created_at = now;
  updated_at = now;
}

-- INSERT ... ON CONFLICT (email_normalized) DO UPDATE, for one row of the values.
unfoldable pub upsert_contact : ℕ → ValidRow → Store → Store
unfolding fill_in
upsert_contact now r s =
    if any (has_email r.email_normalized) s.contacts
    then record s {
      contacts = update_where (has_email r.email_normalized) (fill_in now r) s.contacts;
    }
    else record s {
      contacts = s.contacts ++ new_contact s.next_id now r ∷ [];
      next_id = suc s.next_id;
    }

unfoldable pub upsert_contacts : ℕ → List ValidRow → Store → Store
unfolding upsert_contact
upsert_contacts now [] s = s
upsert_contacts now (r ∷ rs) s = upsert_contacts now rs (upsert_contact now r s)

-- SELECT id FROM contacts WHERE email_normalized IN (...).
abbrev pub in_chunk : List ValidRow → Contact → Bool
in_chunk rs c = is_seen c.email_normalized rs

abbrev pub is_member : ℕ → ℕ → List Membership → Bool
is_member list contact ms =
    any (λ (m : Membership). m.list_id == list && m.contact_id == contact) ms

-- INSERT ... ON CONFLICT DO NOTHING RETURNING: how many were added, and the table.
unfoldable pub add_members : ℕ → List Contact → List Membership → ℕ × List Membership
add_members list [] ms = (0, ms)
add_members list (c ∷ cs) ms =
    if is_member list c.id ms
    then add_members list cs ms
    else (let (n, rest) =
          add_members list cs (ms ++ record { list_id = list; contact_id = c.id } ∷ []) in
        (suc n, rest))

abbrev pub chunk_size : ℕ
chunk_size = 500

abbrev pub count_found : ℕ → ImportSummary → ImportSummary
count_found n summary = record summary { imported = summary.imported + n }

abbrev pub count_added : ℕ → ℕ → ImportSummary → ImportSummary
count_added n found summary = record summary {
  imported = summary.imported + n;
  duplicates = summary.duplicates + (found - n);
}

abbrev pub attach : Option ℕ → List Contact → ImportSummary → Store → ImportSummary × Store
attach none found summary s = (count_found (length found) summary, s)
attach (some list) found summary s =
    let (n, members) = add_members list found s.members in
    (count_added n (length found) summary, record s { members = members })

-- One turn of the loop over the chunks.
unfoldable pub import_chunk :
    Option ℕ → ℕ → List ValidRow → ImportSummary × Store → ImportSummary × Store
unfolding upsert_contacts add_members
import_chunk list now rs (summary, s) =
    let stored = upsert_contacts now rs s in
    attach list (select (in_chunk rs) stored.contacts) summary stored

-- The fuel is the number of the rows, and each turn takes one at least.
unfoldable pub import_chunks :
    ℕ → Option ℕ → ℕ → List ValidRow → ImportSummary × Store → ImportSummary × Store
unfolding import_chunk
import_chunks fuel list now [] p = p
import_chunks zero list now (r ∷ rs) p = p
import_chunks (suc fuel) list now (r ∷ rs) p =
    import_chunks fuel list now (drop chunk_size (r ∷ rs))
      (import_chunk list now (take chunk_size (r ∷ rs)) p)

abbrev pub is_sendable : Store → ValidRow → Bool
is_sendable s r = not (is_suppressed s.suppressions r.email_normalized)

unfoldable pub sendable_rows : List ValidRow → Store → List ValidRow
unfolding is_suppressed
sendable_rows rows s = select (is_sendable s) rows

-- The summary before the loop, of which `sendable` is the number of rows that it will take.
abbrev pub first_summary : ℕ → Prepared → ℕ → ImportSummary
first_summary received p sendable = record {
  received = received;
  imported = 0;
  duplicates = p.duplicates_in_input;
  invalid = length p.invalid;
  skipped_suppressed = length p.valid - sendable;
  invalid_samples = take 10 p.invalid;
}

-- The valid rows among the first `limit`, without those that are suppressed.
abbrev pub rows_to_send : (Text → Text) → ℕ → List ImportRow → Store → List ValidRow
rows_to_send lower limit rows s = sendable_rows (prepare_rows lower (take limit rows)).valid s

abbrev pub start_summary : (Text → Text) → ℕ → List ImportRow → Store → ImportSummary
start_summary lower limit rows s =
    first_summary (length rows) (prepare_rows lower (take limit rows))
      (length (rows_to_send lower limit rows s))

-- `importContacts`; `limit` is MAX_IMPORT_ROWS. With no valid row the loop does nothing.
unfoldable pub import_contacts :
    (Text → Text) → ℕ → ℕ → Option ℕ → List ImportRow → Store → ImportSummary × Store
unfolding prepare_rows sendable_rows import_chunks
import_contacts lower limit now list rows s =
    import_chunks (length (rows_to_send lower limit rows s)) list now
      (rows_to_send lower limit rows s) (start_summary lower limit rows s, s)

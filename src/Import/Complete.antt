-- ===== src/Import/Complete.antt =====
-- Every row that an import takes has a contact after it.
use ai_email_broadcast_hw.Base.{
  ℕ, zero, suc, ◌≤◌, ◌≡◌, sym, subst, true, Option, List, [], ◌∷◌, Text, arith, if_cases, length,
  take, drop, text_eq_refl, All, All-mono, any, any-append, select,
}
use ai_email_broadcast_hw.Store.{Store, Contact}
use ai_email_broadcast_hw.Import.{
  ImportRow, ValidRow, ImportSummary, has_email, new_contact, upsert_contact, upsert_contacts,
  import_chunk, import_chunks, in_chunk, import_contacts, chunk_size, rows_to_send, start_summary,
}
use ai_email_broadcast_hw.Import.Keeps.{
  KeepsAll, import_contacts-KeepsAll, updated-KeepsAll, upsert_contacts-KeepsAll,
  import_chunks-KeepsAll, attach-contacts,
}
use ai_email_broadcast_hw.Import.Names.{NamesKept, import_contacts-NamesKept}
use ai_email_broadcast_hw.Import.Consent.{or_mono}

-- The row's address is that of a contact.
abbrev pub IsStored : List Contact → ValidRow → Type 0
IsStored cs r = any (has_email r.email_normalized) cs ≡ true

IsStored-KeepsAll :
    (r : ValidRow) (xs ys : List Contact) → KeepsAll xs ys → IsStored xs r → IsStored ys r
IsStored-KeepsAll r [] ys h f = cc
IsStored-KeepsAll r (x ∷ xs) [] h f = elim h [ ]
IsStored-KeepsAll r (x ∷ xs) (y ∷ ys) (h, hs) f =
    rw (h.same_key) (or_mono (has_email r.email_normalized x) (IsStored-KeepsAll r xs ys hs) f)

IsStored-upsert :
    (now : ℕ) (r : ValidRow) (s : Store) → IsStored (upsert_contact now r s).contacts r
unfolding upsert_contact
IsStored-upsert now r s =
    if_cases (λ (t : Store). IsStored t.contacts r) (any (has_email r.email_normalized) s.contacts)
      (λ e. IsStored-KeepsAll r s.contacts _ (updated-KeepsAll now r s.contacts) e)
      (λ e. ground (
        arith,
        any-append (has_email r.email_normalized) s.contacts (new_contact s.next_id now r ∷ []),
        text_eq_refl r.email_normalized,
      ))

upsert_contacts_store :
    (now : ℕ) (rs : List ValidRow) (s : Store)
    → All (IsStored (upsert_contacts now rs s).contacts) rs
unfolding upsert_contacts
upsert_contacts_store now [] s = tt
upsert_contacts_store now (r ∷ rs) s =
    let t = upsert_contact now r s in
    (
      IsStored-KeepsAll r t.contacts (upsert_contacts now rs t).contacts
          (upsert_contacts-KeepsAll now rs t) (IsStored-upsert now r s),
      upsert_contacts_store now rs t,
    )

import_chunk_stores :
    (list : Option ℕ) (now : ℕ) (rs : List ValidRow) (p : ImportSummary × Store)
    → All (IsStored (import_chunk list now rs p).1.contacts) rs
unfolding import_chunk
import_chunk_stores list now rs (summary, s) =
    let stored = upsert_contacts now rs s in
    subst (λ cs. All (IsStored cs) rs)
      (sym (attach-contacts list (select (in_chunk rs) stored.contacts) summary stored))
      (upsert_contacts_store now rs s)

All-take-drop {ℓ κ} :
    {A : Type ℓ} (P : A → Type κ) (n : ℕ) (xs : List A)
    → All P (take n xs)
    → All P (drop n xs)
    → All P xs
All-take-drop P zero xs h g = g
All-take-drop P (suc n) [] h g = tt
All-take-drop P (suc n) (x ∷ xs) (h, hs) g = (h, All-take-drop P n xs hs g)

length-drop {ℓ} : {A : Type ℓ} (n : ℕ) (xs : List A) → length (drop n xs) ≤ length xs
length-drop zero xs = omega arith
length-drop (suc n) [] = omega arith
length-drop (suc n) (x ∷ xs) = omega (arith, length-drop n xs)

import_chunks_store :
    (fuel : ℕ) (list : Option ℕ) (now : ℕ) (rs : List ValidRow) (p : ImportSummary × Store)
    → length rs ≤ fuel
    → All (IsStored (import_chunks fuel list now rs p).1.contacts) rs
unfolding import_chunks
import_chunks_store fuel list now [] p h = tt
import_chunks_store zero list now (r ∷ rs) p h = ground arith
import_chunks_store (suc fuel) list now (r ∷ rs) p h =
    let q = import_chunk list now (take chunk_size (r ∷ rs)) p in
    let last = import_chunks fuel list now (drop chunk_size (r ∷ rs)) q in
    All-take-drop (IsStored last.1.contacts) chunk_size (r ∷ rs)
      (All-mono (IsStored q.1.contacts) (IsStored last.1.contacts) (take chunk_size (r ∷ rs))
        (λ x.
          IsStored-KeepsAll x q.1.contacts last.1.contacts
            (import_chunks-KeepsAll fuel list now (drop chunk_size (r ∷ rs)) q))
        (import_chunk_stores list now (take chunk_size (r ∷ rs)) p))
      (import_chunks_store fuel list now (drop chunk_size (r ∷ rs)) q
        (omega (arith, h, length-drop 499 rs)))

import_contacts-IsStored :
    (lower : Text → Text) (limit now : ℕ) (list : Option ℕ) (rows : List ImportRow) (s : Store)
    → All
        (IsStored (import_contacts lower limit now list rows s).1.contacts)
        (rows_to_send lower limit rows s)
unfolding import_contacts
import_contacts-IsStored lower limit now list rows s =
    import_chunks_store (length (rows_to_send lower limit rows s)) list now
      (rows_to_send lower limit rows s) (start_summary lower limit rows s, s) (omega arith)

-- After an import each valid row among the first `limit` that is not suppressed has a contact with its
-- address, so no chunk is left out; and every contact that was there is there, in its place, with its
-- id, its addresses, its custom fields and its creation time, and where its first or last name had a
-- character, the name after the import has one too.
pub import_contacts_complete :
    (lower : Text → Text) (limit now : ℕ) (list : Option ℕ) (rows : List ImportRow) (s : Store)
    → let after = (import_contacts lower limit now list rows s).1.contacts in
      All (IsStored after) (rows_to_send lower limit rows s)
      × KeepsAll s.contacts after
      × NamesKept s.contacts after
import_contacts_complete lower limit now list rows s = (
  import_contacts-IsStored lower limit now list rows s,
  import_contacts-KeepsAll lower limit now list rows s,
  import_contacts-NamesKept lower limit now list rows s,
)

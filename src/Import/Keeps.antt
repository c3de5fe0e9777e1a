-- ===== src/Import/Keeps.antt =====
-- What an import does to the contacts that are there: they stay, in their places.
use ai_email_broadcast_hw.Base.{
  ℕ, zero, suc, ◌≡◌, refl, sym, subst, ◌∙◌, Bool, Option, none, some, List, [], ◌∷◌, ◌++◌, Text,
  if_both, update_where, length, take, drop, any, Impossible,
}
use ai_email_broadcast_hw.Store.{Store, Contact}
use ai_email_broadcast_hw.Import.{
  ImportRow, ValidRow, ImportSummary, has_email, fill_in, upsert_contact, upsert_contacts, attach,
  import_chunk, import_chunks, import_contacts, chunk_size, rows_to_send, start_summary,
}

-- The rows of the first table stand first in the second, each in relation to what it was.
abbrev pub Extends {ℓ κ} : {A : Type ℓ} → (A → A → Type κ) → List A → List A → Type κ
Extends R [] ys = Unit
Extends R (x ∷ xs) [] = Impossible
Extends R (x ∷ xs) (y ∷ ys) = R x y × Extends R xs ys

module _ {ℓ κ} {A : Type ℓ} (R : A → A → Type κ) where
  pub Extends-refl : (xs : List A) → ((x : A) → R x x) → Extends R xs xs
  Extends-refl [] k = tt
  Extends-refl (x ∷ xs) k = (k x, Extends-refl xs k)

  pub Extends-trans :
      (xs ys zs : List A)
      → ((x y z : A) → R x y → R y z → R x z)
      → Extends R xs ys
      → Extends R ys zs
      → Extends R xs zs
  Extends-trans [] ys zs k h g = tt
  Extends-trans (x ∷ xs) [] zs k h g = elim h [ ]
  Extends-trans (x ∷ xs) (y ∷ ys) [] k h g = elim g [ ]
  Extends-trans (x ∷ xs) (y ∷ ys) (z ∷ zs) k (h, hs) (g, gs) =
      (k x y z h g, Extends-trans xs ys zs k hs gs)

  pub Extends-append : (xs ys : List A) → ((x : A) → R x x) → Extends R xs (xs ++ ys)
  Extends-append [] ys k = tt
  Extends-append (x ∷ xs) ys k = (k x, Extends-append xs ys k)

  pub Extends-update :
      (p : A → Bool) (f : A → A) (xs : List A)
      → ((x : A) → R x x)
      → ((x : A) → R x (f x))
      → Extends R xs (update_where p f xs)
  Extends-update p f [] k h = tt
  Extends-update p f (x ∷ xs) k h = (if_both (R x) (p x) (h x) (k x), Extends-update p f xs k h)

-- The same contact, under the same address, with its other fields; its names may change.
pub record KeepsContact (c d : Contact) : Type 0 where
  pub same_id : d.id ≡ c.id
  pub same_email : d.email ≡ c.email
  pub same_key : d.email_normalized ≡ c.email_normalized
  pub same_fields : d.custom_fields ≡ c.custom_fields
  pub same_start : d.created_at ≡ c.created_at

KeepsContact-refl : (c : Contact) → KeepsContact c c
KeepsContact-refl c = record {
  same_id = refl;
  same_email = refl;
  same_key = refl;
  same_fields = refl;
  same_start = refl;
}

KeepsContact-trans : (c d e : Contact) → KeepsContact c d → KeepsContact d e → KeepsContact c e
KeepsContact-trans c d e h g = record {
  same_id = g.same_id ∙ h.same_id;
  same_email = g.same_email ∙ h.same_email;
  same_key = g.same_key ∙ h.same_key;
  same_fields = g.same_fields ∙ h.same_fields;
  same_start = g.same_start ∙ h.same_start;
}

KeepsContact-fill_in : (now : ℕ) (r : ValidRow) (c : Contact) → KeepsContact c (fill_in now r c)
unfolding fill_in
KeepsContact-fill_in now r c = record {
  same_id = refl;
  same_email = refl;
  same_key = refl;
  same_fields = refl;
  same_start = refl;
}

-- From one table of contacts to another.
abbrev pub KeepsAll : List Contact → List Contact → Type 0
KeepsAll xs ys = Extends KeepsContact xs ys

pub KeepsAll-refl : (xs : List Contact) → KeepsAll xs xs
KeepsAll-refl xs = Extends-refl KeepsContact xs KeepsContact-refl

pub KeepsAll-trans : (xs ys zs : List Contact) → KeepsAll xs ys → KeepsAll ys zs → KeepsAll xs zs
KeepsAll-trans xs ys zs h g = Extends-trans KeepsContact xs ys zs KeepsContact-trans h g

pub updated-KeepsAll :
    (now : ℕ) (r : ValidRow) (cs : List Contact)
    → KeepsAll cs (update_where (has_email r.email_normalized) (fill_in now r) cs)
updated-KeepsAll now r cs =
    Extends-update KeepsContact _ (fill_in now r) cs KeepsContact-refl (KeepsContact-fill_in now r)

pub upsert_contact-KeepsAll :
    (now : ℕ) (r : ValidRow) (s : Store) → KeepsAll s.contacts (upsert_contact now r s).contacts
unfolding upsert_contact
upsert_contact-KeepsAll now r s =
    if_both (λ (t : Store). KeepsAll s.contacts t.contacts)
      (any (has_email r.email_normalized) s.contacts) (updated-KeepsAll now r s.contacts)
      (Extends-append KeepsContact s.contacts _ KeepsContact-refl)

pub upsert_contacts-KeepsAll :
    (now : ℕ) (rs : List ValidRow) (s : Store)
    → KeepsAll s.contacts (upsert_contacts now rs s).contacts
unfolding upsert_contacts
upsert_contacts-KeepsAll now [] s = KeepsAll-refl s.contacts
upsert_contacts-KeepsAll now (r ∷ rs) s =
    KeepsAll-trans s.contacts _ _ (upsert_contact-KeepsAll now r s)
      (upsert_contacts-KeepsAll now rs (upsert_contact now r s))

pub attach-contacts :
    (list : Option ℕ) (found : List Contact) (summary : ImportSummary) (s : Store)
    → (attach list found summary s).1.contacts ≡ s.contacts
attach-contacts none found summary s = refl
attach-contacts (some list) found summary s = refl

pub import_chunk-KeepsAll :
    (list : Option ℕ) (now : ℕ) (rs : List ValidRow) (p : ImportSummary × Store)
    → KeepsAll p.1.contacts (import_chunk list now rs p).1.contacts
unfolding import_chunk
import_chunk-KeepsAll list now rs (summary, s) =
    subst (KeepsAll s.contacts) (sym (attach-contacts list _ summary (upsert_contacts now rs s)))
      (upsert_contacts-KeepsAll now rs s)

pub import_chunks-KeepsAll :
    (fuel : ℕ) (list : Option ℕ) (now : ℕ) (rs : List ValidRow) (p : ImportSummary × Store)
    → KeepsAll p.1.contacts (import_chunks fuel list now rs p).1.contacts
unfolding import_chunks
import_chunks-KeepsAll fuel list now [] p = KeepsAll-refl p.1.contacts
import_chunks-KeepsAll zero list now (r ∷ rs) p = KeepsAll-refl p.1.contacts
import_chunks-KeepsAll (suc fuel) list now (r ∷ rs) p =
    let q = import_chunk list now (take chunk_size (r ∷ rs)) p in
    KeepsAll-trans p.1.contacts q.1.contacts _
      (import_chunk-KeepsAll list now (take chunk_size (r ∷ rs)) p)
      (import_chunks-KeepsAll fuel list now (drop chunk_size (r ∷ rs)) q)

pub import_contacts-KeepsAll :
    (lower : Text → Text) (limit now : ℕ) (list : Option ℕ) (rows : List ImportRow) (s : Store)
    → KeepsAll s.contacts (import_contacts lower limit now list rows s).1.contacts
unfolding import_contacts
import_contacts-KeepsAll lower limit now list rows s =
    import_chunks-KeepsAll (length (rows_to_send lower limit rows s)) list now
      (rows_to_send lower limit rows s) (start_summary lower limit rows s, s)

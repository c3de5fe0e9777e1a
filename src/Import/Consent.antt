-- ===== src/Import/Consent.antt =====
-- Nobody on the suppression list is put on a list by an import.
use ai_email_broadcast_hw.Base.{
  ℕ, zero, suc, ◌≡◌, refl, sym, subst, ap, ◌∙◌, inl, inr, Bool, true, false, not, ◌&&◌, ◌||◌,
  Option, none, some, List, [], ◌∷◌, ◌++◌, Text, arith, ◌==◌, ==_refl, if_both, if_cases, select,
  length, take, drop, text_eq, text_eq→eq, Bool-cases, All, All-mono, All-take, All-drop,
  All-append, All-select_self, any,
}
use mathlib.Core.List.{append_assoc, append-nil}
use ai_email_broadcast_hw.Store.{Store, Contact, Membership, Suppression}
use ai_email_broadcast_hw.Queue.{is_suppressed}
use ai_email_broadcast_hw.Import.{
  ImportRow, ValidRow, ImportSummary, upsert_contact, upsert_contacts, attach, add_members,
  import_chunk, import_chunks, is_member, sendable_rows, import_contacts, chunk_size, in_chunk,
  is_seen, has_email, prepare_rows, rows_to_send, start_summary, is_sendable,
}
use ai_email_broadcast_hw.Import.Keeps.{KeepsAll, upsert_contacts-KeepsAll}

-- The id is that of a contact whose address is not on the list.
abbrev pub IsFree : List Suppression → List Contact → ℕ → Type 0
IsFree sup cs i =
    any (λ (c : Contact). c.id == i && not (is_suppressed sup c.email_normalized)) cs ≡ true

-- The table of memberships has the old rows and then new ones, each of a contact who may be written to.
pub record AddsFree (sup : List Suppression) (old : List Membership) (s : Store) : Type 0 where
  pub added : List Membership
  pub grows : s.members ≡ old ++ added
  pub free : All (λ (m : Membership). IsFree sup s.contacts m.contact_id) added

pub or_mono : (b : Bool) {u v : Bool} → (u ≡ true → v ≡ true) → (b || u) ≡ true → (b || v) ≡ true
or_mono true k h = refl
or_mono false k h = k h

or_right : (b : Bool) {u : Bool} → u ≡ true → (b || u) ≡ true
or_right true h = refl
or_right false h = h

module _ (sup : List Suppression) where
  IsFree-KeepsAll :
      (i : ℕ) (xs ys : List Contact) → KeepsAll xs ys → IsFree sup xs i → IsFree sup ys i
  IsFree-KeepsAll i [] ys h f = cc
  IsFree-KeepsAll i (x ∷ xs) [] h f = elim h [ ]
  IsFree-KeepsAll i (x ∷ xs) (y ∷ ys) (h, hs) f =
      rw (h.same_id, h.same_key)
        (or_mono (x.id == i && not (is_suppressed sup x.email_normalized))
          (IsFree-KeepsAll i xs ys hs) f)

  unfoldable pub IsSendable : ValidRow → Type 0
  IsSendable r = not (is_suppressed sup r.email_normalized) ≡ true

  chunk-IsFree :
      (rs : List ValidRow) (key : Text)
      → All IsSendable rs
      → is_seen key rs ≡ true
      → not (is_suppressed sup key) ≡ true
  unfolding IsSendable
  chunk-IsFree [] key h e = cc
  chunk-IsFree (r ∷ rs) key (h, hs) e = elim (Bool-cases (text_eq r.email_normalized key)) [
    | inl t ↦ subst (λ k. not (is_suppressed sup k) ≡ true) (text_eq→eq r.email_normalized key t) h
    | inr t ↦ chunk-IsFree rs key hs (ground arith)
  ]

  found-IsFree :
      (q : Contact → Bool) (cs : List Contact)
      → ((c : Contact) → q c ≡ true → not (is_suppressed sup c.email_normalized) ≡ true)
      → All (λ (c : Contact). IsFree sup cs c.id) (select q cs)
  found-IsFree q [] k = tt
  found-IsFree q (c ∷ cs) k =
      let rest =
        All-mono (λ (d : Contact). IsFree sup cs d.id) (λ (d : Contact). IsFree sup (c ∷ cs) d.id)
          (select q cs) (λ d. or_right (c.id == d.id && not (is_suppressed sup c.email_normalized)))
          (found-IsFree q cs k) in
      if_cases (All (λ (d : Contact). IsFree sup (c ∷ cs) d.id)) (q c)
        (λ e. (rw (==_refl c.id, k c e) refl, rest)) (λ e. rest)

  add_members-IsFree :
      (P : ℕ → Type 0) (list : ℕ) (cs : List Contact) (ms : List Membership)
      → All (λ (c : Contact). P c.id) cs
      → (added : List Membership) × ((add_members list cs ms).1 ≡ ms ++ added)
        × All (λ (m : Membership). P m.contact_id) added
  unfolding add_members
  add_members-IsFree P list [] ms h = ([], sym (append-nil ms), tt)
  add_members-IsFree P list (c ∷ cs) ms (h, hs) =
      let m : Membership = record { list_id = list; contact_id = c.id } in
      if_both
        (λ (r : ℕ × List Membership).
          (added : List Membership) × (r.1 ≡ ms ++ added)
          × All (λ (x : Membership). P x.contact_id) added)
        (is_member list c.id ms) (add_members-IsFree P list cs ms hs)
        (let (added, e, free) = add_members-IsFree P list cs (ms ++ m ∷ []) hs in
          (m ∷ added, e ∙ append_assoc ms (m ∷ []) added, (h, free)))

  -- Updates and inserts of contacts leave the memberships, and those that they concern.
  upsert_contacts-members :
      (now : ℕ) (rs : List ValidRow) (s : Store)
      → ((upsert_contacts now rs s).members ≡ s.members)
        × ((upsert_contacts now rs s).suppressions ≡ s.suppressions)
  unfolding upsert_contacts upsert_contact
  upsert_contacts-members now [] s = (refl, refl)
  upsert_contacts-members now (r ∷ rs) s =
      let (a, b) = upsert_contacts-members now rs (upsert_contact now r s) in
      let (c, d) =
        if_both (λ (t : Store). (t.members ≡ s.members) × (t.suppressions ≡ s.suppressions))
          (any (has_email r.email_normalized) s.contacts) (refl, refl) (refl, refl) in
      (a ∙ c, b ∙ d)

  AddsFree-upsert :
      (old : List Membership) (now : ℕ) (rs : List ValidRow) (s : Store)
      → AddsFree sup old s
      → AddsFree sup old (upsert_contacts now rs s)
  AddsFree-upsert old now rs s h =
      let (same, kept) = upsert_contacts-members now rs s in
      record {
        added = h.added;
        grows = same ∙ h.grows;
        free =
            All-mono _ _ h.added
              (λ m.
                IsFree-KeepsAll m.contact_id s.contacts (upsert_contacts now rs s).contacts
                  (upsert_contacts-KeepsAll now rs s))
              h.free;
      }

  AddsFree-attach :
      (old : List Membership) (list : Option ℕ) (found : List Contact) (summary : ImportSummary)
      (s : Store)
      → All (λ (c : Contact). IsFree sup s.contacts c.id) found
      → AddsFree sup old s
      → AddsFree sup old (attach list found summary s).1
  AddsFree-attach old none found summary s f h = h
  AddsFree-attach old (some list) found summary s f h =
      let (more, e, free) = add_members-IsFree (IsFree sup s.contacts) list found s.members f in
      record {
        added = h.added ++ more;
        grows = e ∙ ap (λ ms. ms ++ more) h.grows ∙ append_assoc old h.added more;
        free = All-append _ h.added more h.free free;
      }

  AddsFree-import_chunk :
      (old : List Membership) (list : Option ℕ) (now : ℕ) (rs : List ValidRow)
      (p : ImportSummary × Store)
      → All IsSendable rs
      → AddsFree sup old p.1
      → AddsFree sup old (import_chunk list now rs p).1
  unfolding import_chunk
  AddsFree-import_chunk old list now rs (summary, s) ok h =
      let stored = upsert_contacts now rs s in
      AddsFree-attach old list (select (in_chunk rs) stored.contacts) summary stored
        (found-IsFree (in_chunk rs) stored.contacts (λ c. chunk-IsFree rs c.email_normalized ok))
        (AddsFree-upsert old now rs s h)

  AddsFree-import_chunks :
      (old : List Membership) (fuel : ℕ) (list : Option ℕ) (now : ℕ) (rs : List ValidRow)
      (p : ImportSummary × Store)
      → All IsSendable rs
      → AddsFree sup old p.1
      → AddsFree sup old (import_chunks fuel list now rs p).1
  unfolding import_chunks
  AddsFree-import_chunks old fuel list now [] p ok h = h
  AddsFree-import_chunks old zero list now (r ∷ rs) p ok h = h
  AddsFree-import_chunks old (suc fuel) list now (r ∷ rs) p ok h =
      AddsFree-import_chunks old fuel list now (drop chunk_size (r ∷ rs)) _
        (All-drop IsSendable chunk_size (r ∷ rs) ok)
        (AddsFree-import_chunk old list now (take chunk_size (r ∷ rs)) p
          (All-take IsSendable chunk_size (r ∷ rs) ok) h)

-- An import only ever adds rows to the memberships, and each row that it adds is of a contact whose
-- address was not on the suppression list, whichever file or paste it came from.
pub import_contacts-AddsFree :
    (lower : Text → Text) (limit now : ℕ) (list : Option ℕ) (rows : List ImportRow) (s : Store)
    → AddsFree s.suppressions s.members (import_contacts lower limit now list rows s).1
unfolding import_contacts sendable_rows IsSendable
import_contacts-AddsFree lower limit now list rows s =
    let sendable = rows_to_send lower limit rows s in
    AddsFree-import_chunks s.suppressions s.members (length sendable) list now sendable
      (start_summary lower limit rows s, s)
      (All-select_self (is_sendable s) (prepare_rows lower (take limit rows)).valid)
      (record { added = []; grows = sym (append-nil s.members); free = tt })

-- ===== src/Edit/Laws.antt =====
-- An edit only touches the content of its campaign, and what it stores is sanitised.
use ai_email_broadcast_hw.Base.{
  ℕ, ◌≤◌, ◌≡◌, refl, subst, ◌⊎◌, inl, inr, max, Bool, true, false, Option, none, some, List, Text,
  arith, ltb, ◌==◌, if_both, if_cases, length, update_where, Pointwise, Pointwise-update_where,
  All-true,
}
use ai_email_broadcast_hw.Api.{Response, ok, refused}
use ai_email_broadcast_hw.Input.{
  Value, undefined, null, other, text, ◌>>=◌, str, present, optional_str,
}
use ai_email_broadcast_hw.Input.Laws.{Answers, str-Answers, bind-Answers, any-Answers}
use ai_email_broadcast_hw.Store.{Store, Campaign}
use ai_email_broadcast_hw.Send.Laws.{and_then-cases}
use ai_email_broadcast_hw.Edit.Rest.{KeepsRest, replace_lists-KeepsRest}
use ai_email_broadcast_hw.Edit.{
  Edit, Patch, given, is_given, or_keep, apply_patch, clean_html, make_patch, patch_of, address,
  find_unlocked, write_patch, read_body, edit_campaign,
}

abbrev pub IfSome : {A : Type 0} → (A → Type 0) → Option A → Type 0
IfSome P none = Unit
IfSome P (some a) = P a

present-Answers :
    {A : Type 0} (P : A → Type 0) (r : Response A) → Answers P r → Answers (IfSome P) (present r)
present-Answers P (ok a) h = h
present-Answers P (refused code key) h = tt

given-Answers :
    {A : Type 0} (P : A → Type 0) (v : Value) (f : Value → Response A)
    → ((v : Value) → Answers P (f v))
    → Answers (IfSome P) (given v f)
given-Answers P v f h = if_both (Answers (IfSome P)) (is_given v) (present-Answers P (f v) (h v)) tt

module _ (sanitize html_to_text : Text → Text) where
  -- What a patch may hold.
  pub record IsFit (p : Patch) : Type 0 where
    pub name : IfSome (λ t. length t ≤ 200) p.name
    pub subject : IfSome (λ t. length t ≤ 300) p.subject
    pub content : IfSome (λ t. (x : Text) × (t ≡ sanitize x)) p.content

  clean_html-Answers :
      (v : Value)
      → Answers (λ t. (x : Text) × (t ≡ sanitize x)) (clean_html sanitize html_to_text v)
  unfolding clean_html
  clean_html-Answers undefined = tt
  clean_html-Answers null = tt
  clean_html-Answers other = tt
  clean_html-Answers (text t) =
      if_cases (Answers (λ s. (x : Text) × (s ≡ sanitize x))) (ltb 500000 (length t)) (λ e. tt)
        (λ e. (t, refl))

  last-IsFit :
      (e : Edit) (custom : Bool) (name subject : Option Text)
      (from_name reply_to from_email : Option (Option Text)) (content : Option Text)
      → IfSome (λ t. length t ≤ 200) name
      → IfSome (λ t. length t ≤ 300) subject
      → IfSome (λ t. (x : Text) × (t ≡ sanitize x)) content
      → (r : Response (Option (Option Text)))
      → Answers IsFit (
          r >>= (λ own_text. ok (
            make_patch html_to_text custom e name subject from_name reply_to from_email content
              own_text)))
  last-IsFit e custom name subject from_name reply_to from_email content n m k (ok own_text) =
      record { name = n; subject = m; content = k }
  last-IsFit e custom name subject from_name reply_to from_email content n m k (refused code key) =
      tt

  patch_of-IsFit :
      (e : Edit) (custom : Bool) → Answers IsFit (patch_of sanitize html_to_text e custom)
  unfolding patch_of
  patch_of-IsFit e custom =
      bind-Answers (IfSome (λ t. length t ≤ 200)) IsFit _ _
        (given-Answers _ e.name (str 200 true) (str-Answers 200 true))
        (λ name n.
          bind-Answers (IfSome (λ t. length t ≤ 300)) IsFit _ _
            (given-Answers _ e.subject (str 300 false) (str-Answers 300 false))
            (λ subject m.
              bind-Answers (λ a. Unit) IsFit (given e.from_name (optional_str 200)) _
                (any-Answers (given e.from_name (optional_str 200)))
                (λ from_name a.
                  bind-Answers (λ a. Unit) IsFit (given e.reply_to (address "err.replyTo.invalid"))
                    _ (any-Answers (given e.reply_to (address "err.replyTo.invalid")))
                    (λ reply_to a.
                      bind-Answers (λ a. Unit) IsFit
                        (given e.from_email (address "err.senderEmail.invalid")) _
                        (any-Answers (given e.from_email (address "err.senderEmail.invalid")))
                        (λ from_email a.
                          bind-Answers (IfSome (λ t. (x : Text) × (t ≡ sanitize x))) IsFit _ _
                            (given-Answers _ e.content_html _ clean_html-Answers)
                            (λ content k.
                              last-IsFit e custom name subject from_name reply_to from_email content
                                n m k (given e.text_body (optional_str 200000))))))))

  -- One campaign, before and after an edit of the campaign `i`.
  pub record Edits (i : ℕ) (c d : Campaign) : Type 0 where
    pub same_id : d.id ≡ c.id
    pub same_status : d.status ≡ c.status
    pub same_schedule : d.scheduled_at ≡ c.scheduled_at
    pub same_times :
        (d.created_at ≡ c.created_at)
        × (d.started_at ≡ c.started_at)
        × (d.completed_at ≡ c.completed_at)
    pub same_total : d.total_recipients ≡ c.total_recipients
    pub others : (c.id == i) ≡ false → d ≡ c
    pub name_fits : length d.name ≤ max (length c.name) 200
    pub subject_fits : length d.subject ≤ max (length c.subject) 300
    pub content :
        ((d.content_html ≡ c.content_html) × (d.compiled_html ≡ c.compiled_html))
        ⊎ ((x : Text) × (d.content_html ≡ sanitize x) × (d.compiled_html ≡ sanitize x))

  Edits-refl : (i : ℕ) (c : Campaign) → Edits i c c
  Edits-refl i c = record {
    same_id = refl;
    same_status = refl;
    same_schedule = refl;
    same_times = (refl, refl, refl);
    same_total = refl;
    others = λ e. refl;
    name_fits = omega arith;
    subject_fits = omega arith;
    content = inl (refl, refl);
  }

  Edits-apply_patch :
      (now i : ℕ) (p : Patch) (c : Campaign)
      → IsFit p
      → (c.id == i) ≡ true
      → Edits i c (apply_patch now p c)
  unfolding apply_patch
  Edits-apply_patch now i p c h mine = record {
    same_id = refl;
    same_status = refl;
    same_schedule = refl;
    same_times = (refl, refl, refl);
    same_total = refl;
    others = λ e. absurd (ground arith);
    name_fits = kept_or 200 p.name c.name h.name;
    subject_fits = kept_or 300 p.subject c.subject h.subject;
    content = content_or p.content c h.content;
  }
    where
      kept_or :
          (n : ℕ) (o : Option Text) (t : Text)
          → IfSome (λ s. length s ≤ n) o
          → length (or_keep o t) ≤ max (length t) n
      kept_or n none t h = omega arith
      kept_or n (some s) t h = omega (arith, h)

      content_or :
          (o : Option Text) (c : Campaign)
          → IfSome (λ s. (x : Text) × (s ≡ sanitize x)) o
          → ((or_keep o c.content_html ≡ c.content_html)
              × (or_keep o c.compiled_html ≡ c.compiled_html))
            ⊎ ((x : Text) × (or_keep o c.content_html ≡ sanitize x)
                × (or_keep o c.compiled_html ≡ sanitize x))
      content_or none c h = inl (refl, refl)
      content_or (some s) c (x, e) = inr (x, e, e)

  -- Nothing was written; or each campaign stands as an edit may leave it, and all other tables are as
  -- the write met them, the lists of the campaign apart.
  abbrev pub IsEdited : ℕ → Store → Store → Response (Unit {0}) × Store → Type 0
  IsEdited i s t (r, s') =
      (s' ≡ s)
      ⊎ ((cs : List Campaign) × Pointwise (Edits i) t.campaigns cs
          × KeepsRest i (record t { campaigns = cs }) s')

  -- A request to edit a campaign, whatever it asks for and whether it is granted or refused, writes
  -- nothing, or changes this: the fields of that one campaign, yet never its status, schedule or
  -- totals, where a new name has at most 200 characters, a new subject at most 300, and new HTML has
  -- gone through sanitizeEmailHtml, the same to be edited and to be sent; and that campaign's lists.
  pub edit_campaign-IsEdited :
      (uuid : Text → ℕ) (list_exists : ℕ → Bool) (now : ℕ) (meanwhile : Store → Store)
      (body : Option Edit) (i : ℕ) (s : Store)
      → IsEdited i s
          (meanwhile s)
          (edit_campaign sanitize html_to_text uuid list_exists now meanwhile body i s)
  unfolding edit_campaign write_patch
  edit_campaign-IsEdited uuid list_exists now meanwhile body i s =
      let P = IsEdited i s (meanwhile s) in
      and_then-cases P (find_unlocked i s) s _ (λ code key. inl refl)
        (λ c h.
          and_then-cases P (read_body body) s _ (λ code key. inl refl)
            (λ e b.
              and_then-cases P (patch_of sanitize html_to_text e c.text_body_is_custom) s _
                (λ code key. inl refl)
                (λ p q.
                  let fit : IsFit p =
                    subst (Answers IsFit) q (patch_of-IsFit e c.text_body_is_custom) in
                  inr (
                    update_where (λ c. c.id == i) (apply_patch now p) (meanwhile s).campaigns,
                    Pointwise-update_where (Edits i) (λ c. c.id == i) (apply_patch now p)
                        (meanwhile s).campaigns (λ c e. Edits-refl i c)
                        (All-true _ (meanwhile s).campaigns
                          (λ c e. Edits-apply_patch now i p c fit e)),
                    replace_lists-KeepsRest uuid list_exists i (write_patch now i p (meanwhile s))
                        e.list_ids,
                  ))))

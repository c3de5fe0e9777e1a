-- ===== src/Personalize/Markup.antt =====
-- What is put into the HTML of a message brings no markup with it.
use ai_email_broadcast_hw.Base.{
  ℕ, zero, suc, ◌≤◌, ◌≡◌, refl, ap, inl, inr, Bool, false, ◌||◌, Option, none, some, List, [], ◌∷◌,
  ◌++◌, Text, arith, ◌==◌, if◌then◌else◌, length, count_where, count_where-append, All, All-mono,
  Option-cases, ◌-◌,
}
use ai_email_broadcast_hw.Personalize.{
  Value, own_value, any_case_value, lookup, match_placeholder, put, replace_from, names_from,
  names_at, replace_at, amp_entity, lt_entity, gt_entity, quot_entity, apos_entity, replace_char,
  escape_html, html_text, render_template_html,
}

-- `<`, `>` and the two quotes.
abbrev pub is_markup : ℕ → Bool
is_markup c = c == 60 || (c == 62 || (c == 34 || c == 39))

abbrev pub markup : Text → ℕ
markup t = count_where is_markup t

-- How often a character occurs.
abbrev times : ℕ → Text → ℕ
times d t = count_where (λ c. c == d) t

times-replaced : (d : ℕ) (by t : Text) → times d by ≡ 0 → times d (replace_char d by t) ≡ 0
unfolding replace_char
times-replaced d by [] h = refl
times-replaced d by (c ∷ cs) h = ground (
  arith,
  times-replaced d by cs h,
  count_where-append (λ x. x == d) (if c == d then by else c ∷ []) (replace_char d by cs),
)

times-other :
    (d e : ℕ) (by t : Text) → times d by ≡ 0 → times d t ≡ 0 → times d (replace_char e by t) ≡ 0
unfolding replace_char
times-other d e by [] h k = refl
times-other d e by (c ∷ cs) h k = ground (
  arith,
  times-other d e by cs h,
  count_where-append (λ x. x == d) (if c == e then by else c ∷ []) (replace_char e by cs),
)

markup_none :
    (t : Text) → times 60 t ≡ 0 → times 62 t ≡ 0 → times 34 t ≡ 0 → times 39 t ≡ 0 → markup t ≡ 0
markup_none [] a b c d = refl
markup_none (x ∷ xs) a b c d = ground (arith, markup_none xs)

markup-escape_html : (v : Text) → markup (escape_html v) ≡ 0
unfolding escape_html
markup-escape_html v =
    let a = replace_char 38 amp_entity v in
    let b = replace_char 60 lt_entity a in
    let c = replace_char 62 gt_entity b in
    let d = replace_char 34 quot_entity c in
    let e = replace_char 39 apos_entity d in
    markup_none e
      (times-other 60 39 apos_entity d refl (
        times-other 60 34 quot_entity c refl
          (times-other 60 62 gt_entity b refl (times-replaced 60 lt_entity a refl))))
      (times-other 62 39 apos_entity d refl
        (times-other 62 34 quot_entity c refl (times-replaced 62 gt_entity b refl)))
      (times-other 34 39 apos_entity d refl (times-replaced 34 quot_entity c refl))
      (times-replaced 39 apos_entity d refl)

-- There is an output, with no more markup than the text has.
abbrev pub Renders : Option Text → Text → Type 0
Renders r t = (out : Text) × (r ≡ some out) × (markup out ≤ markup t)

module _ (f : Text → Option Text) where
  Plain : Text → Type 0
  Plain name = (v : Text) × (f name ≡ some v) × (markup v ≡ 0)

  put-Renders :
      (c : ℕ) (cs : Text) (r : Option Text)
      → Renders r cs
      → Renders (put (some (c ∷ [])) r) (c ∷ cs)
  put-Renders c cs r (out, e, h) = (c ∷ out, ap (put (some (c ∷ []))) e, ground arith)

  put-Plain :
      (c : ℕ) (cs name : Text) (r : Option Text)
      → Plain name
      → Renders r cs
      → Renders (put (f name) r) (c ∷ cs)
  unfolding Plain
  put-Plain c cs name r (v, e, h) (out, d, k) =
      (v ++ out, rw (e, d) refl, ground (arith, count_where-append is_markup v out))

  skipped : (c : ℕ) (cs : Text) (r : Option Text) → Renders r cs → Renders r (c ∷ cs)
  skipped c cs r (out, e, h) = (out, e, ground arith)

  replace_at-Renders :
      (c : ℕ) (cs : Text) (go : ℕ → Option Text) (names : ℕ → List Text) (m : Option (Text × Text))
      → ((k : ℕ) → All Plain (names k) → Renders (go k) cs)
      → All Plain (names_at cs names m)
      → Renders (replace_at f c cs go m) (c ∷ cs)
  replace_at-Renders c cs go names none r h = put-Renders c cs (go 0) (r 0 h)
  replace_at-Renders c cs go names (some (name, rest)) r (h, hs) =
      put-Plain c cs name (go (length cs - length rest)) h (r (length cs - length rest) hs)

  replace_from-Renders :
      (k : ℕ) (t : Text) → All Plain (names_from k t) → Renders (replace_from f k t) t
  unfolding names_from replace_from
  replace_from-Renders k [] h = ([], refl, omega arith)
  replace_from-Renders (suc k) (c ∷ cs) h =
      skipped c cs (replace_from f k cs) (replace_from-Renders k cs h)
  replace_from-Renders zero (c ∷ cs) h =
      replace_at-Renders c cs (λ k. replace_from f k cs) (λ k. names_from k cs)
        (match_placeholder (c ∷ cs)) (λ k. replace_from-Renders k cs) h

module _ (lower : Text → Text) (inherited : Text → Bool) (values : List Value) where
  lookup-Plain :
      (name : Text)
      → inherited name ≡ false
      → Plain (λ n. html_text (lookup lower inherited values n)) name
  unfolding Plain html_text lookup
  lookup-Plain name h = elim (Option-cases (own_value name values)) [
    | inr (v, e) ↦ (escape_html v, rw (e, lookup) refl, markup-escape_html v)
    | inl e ↦ elim (Option-cases (any_case_value lower name values)) [
      | inr (v, d) ↦ (escape_html v, rw (e, h, d, lookup) refl, markup-escape_html v)
      | inl d ↦ (escape_html [], rw (e, h, d, lookup) refl, markup-escape_html [])
    ]
  ]

  -- Where no variable of the template has a name that every JavaScript object inherits, the
  -- template is rendered, and the result has no more markup characters than the template:
  -- whatever the names and the custom fields of a contact hold, they bring none with them.
  pub render_template_html-Renders :
      (template : Text)
      → All (λ name. inherited name ≡ false) (names_from 0 template)
      → Renders (render_template_html lower inherited values template) template
  unfolding render_template_html
  render_template_html-Renders template h =
      replace_from-Renders (λ name. html_text (lookup lower inherited values name)) 0 template
        (All-mono _ _ (names_from 0 template) lookup-Plain h)

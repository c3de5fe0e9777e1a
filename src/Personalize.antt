-- ===== src/Personalize.antt =====
-- The variables of a message, src/lib/personalize.ts. `inherited` says which names every JavaScript
-- object has from its prototype, and `lower` is the runtime's table of lower-case letters.
pub mod Markup
mod Tests
use ai_email_broadcast_hw.Base.{
  ℕ, zero, suc, ◌-◌, Bool, true, false, ◌&&◌, ◌||◌, Option, none, some, List, [], ◌∷◌, ◌++◌, Text,
  leb, ◌==◌, if◌then◌else◌, length, text_eq,
}
use ai_email_broadcast_hw.Address.{trim_start}
use ai_email_broadcast_hw.Address.Valid.{is_alphanumeric}

-- One entry of the values.
pub record Value : Type 0 where
  pub name : Text
  pub text : Text

-- What a name stands for: a text of the values, nothing, or a property of the prototype, which is
-- no text.
pub data Found : Type 0 where
  own : Text → Found
  nothing foreign : Found

unfoldable pub own_value : Text → List Value → Option Text
own_value name [] = none
own_value name (v ∷ vs) = if text_eq v.name name then some v.text else own_value name vs

unfoldable pub any_case_value : (Text → Text) → Text → List Value → Option Text
any_case_value lower name [] = none
any_case_value lower name (v ∷ vs) =
    if text_eq (lower v.name) (lower name) then some v.text else any_case_value lower name vs

abbrev pub as_found : Option Text → Found
as_found none = nothing
as_found (some t) = own t

abbrev pub or_found : Option Text → Found → Found
or_found none f = f
or_found (some t) f = own t

-- `name in values` is true of the prototype's names too.
unfoldable pub lookup : (Text → Text) → (Text → Bool) → List Value → Text → Found
unfolding own_value any_case_value
lookup lower inherited values name =
    or_found (own_value name values)
      (if inherited name then foreign else as_found (any_case_value lower name values))

abbrev pub is_name_character : ℕ → Bool
is_name_character c = is_alphanumeric c || (c == 95 || c == 46)

-- The name at the start of a text, and what follows it.
unfoldable pub take_name : Text → Text × Text
take_name [] = ([], [])
take_name (c ∷ cs) =
    let (name, rest) = take_name cs in
    if is_name_character c then (c ∷ name, rest) else ([], c ∷ cs)

-- The text after two of the character.
abbrev pub after_two : ℕ → Text → Option Text
after_two d [] = none
after_two d (a ∷ []) = none
after_two d (a ∷ b ∷ cs) = if a == d && b == d then some cs else none

abbrev pub close : Text × Text → Option (Text × Text)
close ([], rest) = none
close (c ∷ name, rest) = elim (after_two 125 (trim_start rest)) [
  | none ↦ none
  | some end ↦ some (c ∷ name, end)
]

-- PLACEHOLDER_RE at the start of the text: the name, and the text after the placeholder.
unfoldable pub match_placeholder : Text → Option (Text × Text)
unfolding trim_start take_name
match_placeholder t = elim (after_two 123 t) [
  | none ↦ none
  | some inner ↦ close (take_name (trim_start inner))
]

-- A replacement that throws ends the whole.
abbrev pub put : Option Text → Option Text → Option Text
put none out = none
put (some t) none = none
put (some t) (some out) = some (t ++ out)

-- One place of the text, by whether a placeholder starts there; `go` does the rest of the text,
-- of which as many characters as it is given belong to the match and are passed over.
abbrev pub replace_at :
    (Text → Option Text) → ℕ → Text → (ℕ → Option Text) → Option (Text × Text) → Option Text
replace_at f c cs go none = put (some (c ∷ [])) (go 0)
replace_at f c cs go (some (name, rest)) = put (f name) (go (length cs - length rest))

abbrev pub names_at : Text → (ℕ → List Text) → Option (Text × Text) → List Text
names_at cs go none = go 0
names_at cs go (some (name, rest)) = name ∷ go (length cs - length rest)

-- `replace` with the placeholder's expression.
unfoldable pub replace_from : (Text → Option Text) → ℕ → Text → Option Text
unfolding match_placeholder
replace_from f k [] = some []
replace_from f (suc k) (c ∷ cs) = replace_from f k cs
replace_from f zero (c ∷ cs) =
    replace_at f c cs (λ k. replace_from f k cs) (match_placeholder (c ∷ cs))

-- `matchAll`: the names of the placeholders.
unfoldable pub names_from : ℕ → Text → List Text
unfolding match_placeholder
names_from k [] = []
names_from (suc k) (c ∷ cs) = names_from k cs
names_from zero (c ∷ cs) = names_at cs (λ k. names_from k cs) (match_placeholder (c ∷ cs))

unfoldable pub replace_char : ℕ → Text → Text → Text
replace_char d by [] = []
replace_char d by (c ∷ cs) = (if c == d then by else c ∷ []) ++ replace_char d by cs

-- "&amp;", "&lt;", "&gt;", "&quot;" and "&#39;".
abbrev pub amp_entity : Text
amp_entity = 38 ∷ b'a' ∷ b'm' ∷ b'p' ∷ 59 ∷ []

abbrev pub lt_entity : Text
lt_entity = 38 ∷ b'l' ∷ b't' ∷ 59 ∷ []

abbrev pub gt_entity : Text
gt_entity = 38 ∷ b'g' ∷ b't' ∷ 59 ∷ []

abbrev pub quot_entity : Text
quot_entity = 38 ∷ b'q' ∷ b'u' ∷ b'o' ∷ b't' ∷ 59 ∷ []

abbrev pub apos_entity : Text
apos_entity = 38 ∷ 35 ∷ b'3' ∷ b'9' ∷ 59 ∷ []

unfoldable pub escape_html : Text → Text
unfolding replace_char
escape_html v = replace_char 39 apos_entity (
    replace_char 34 quot_entity
      (replace_char 62 gt_entity (replace_char 60 lt_entity (replace_char 38 amp_entity v))))

-- `escapeHtml(lookup(...) ?? "")`: what is no text has no `replace`, and the call throws.
unfoldable pub html_text : Found → Option Text
unfolding escape_html
html_text (own t) = some (escape_html t)
html_text nothing = some (escape_html [])
html_text foreign = none

-- `renderTemplateHtml`, or none where it throws.
unfoldable pub render_template_html :
    (Text → Text) → (Text → Bool) → List Value → Text → Option Text
unfolding lookup html_text replace_from
render_template_html lower inherited values template =
    replace_from (λ name. html_text (lookup lower inherited values name)) 0 template

-- What a found value is turned to as a text; `shown` is what the runtime makes of the property of
-- the prototype with this name.
unfoldable pub plain_text : (Text → Text) → Text → Found → Option Text
plain_text shown name (own t) = some t
plain_text shown name nothing = some []
plain_text shown name foreign = some (shown name)

-- `renderTemplate`.
unfoldable pub render_template :
    (Text → Text) → (Text → Bool) → (Text → Text) → List Value → Text → Option Text
unfolding lookup plain_text replace_from
render_template lower inherited shown values template =
    replace_from (λ name. plain_text shown name (lookup lower inherited values name)) 0 template

-- ===== src/Personalize/Tests.antt =====
-- A greeting with a name that holds markup, a placeholder that comes out of two, and a name
-- that every object has.
use ai_email_broadcast_hw.Base.{
  ◌≡◌, refl, Bool, false, none, some, List, [], ◌∷◌, Text, text_eq, All,
}
use ai_email_broadcast_hw.Address.{lower_ascii}
use ai_email_broadcast_hw.Personalize.{Value, names_from, render_template_html, render_template}
use ai_email_broadcast_hw.Personalize.Markup.{Renders, render_template_html-Renders}

-- "Hi {{ name }}<"
abbrev greeting : Text
greeting = b'H' ∷ b'i' ∷ 32 ∷ 123 ∷ 123 ∷ 32 ∷ b'n' ∷ b'a' ∷ b'm' ∷ b'e' ∷ 32 ∷ 125 ∷ 125 ∷ 60 ∷ []

-- "Name" is "<b>".
abbrev values : List Value
values = record { name = b'N' ∷ b'a' ∷ b'm' ∷ b'e' ∷ []; text = 60 ∷ b'b' ∷ 62 ∷ [] } ∷ []

abbrev value_of : Text
value_of = b'v' ∷ b'a' ∷ b'l' ∷ b'u' ∷ b'e' ∷ b'O' ∷ b'f' ∷ []

abbrev inherited : Text → Bool
inherited name = text_eq name value_of

rendered :
    render_template_html lower_ascii inherited values greeting
    ≡ some (b'H' ∷ b'i' ∷ 32 ∷ 38 ∷ b'l' ∷ b't' ∷ 59 ∷ b'b' ∷ 38 ∷ b'g' ∷ b't' ∷ 59 ∷ 60 ∷ [])
unfolding render_template_html lower_ascii text_eq
rendered = refl

-- "{{valueOf}}"
throws :
    render_template_html lower_ascii inherited values
      (123 ∷ 123 ∷ b'v' ∷ b'a' ∷ b'l' ∷ b'u' ∷ b'e' ∷ b'O' ∷ b'f' ∷ 125 ∷ 125 ∷ [])
    ≡ none
unfolding render_template_html lower_ascii text_eq
throws = refl

-- "{{{{a}}b}}"
leaves_placeholder :
    render_template lower_ascii inherited
      (λ t. t)
      values
      (123 ∷ 123 ∷ 123 ∷ 123 ∷ b'a' ∷ 125 ∷ 125 ∷ b'b' ∷ 125 ∷ 125 ∷ [])
    ≡ some (123 ∷ 123 ∷ b'b' ∷ 125 ∷ 125 ∷ [])
unfolding render_template lower_ascii text_eq
leaves_placeholder = refl

greeting_names : All (λ name. inherited name ≡ false) (names_from 0 greeting)
unfolding names_from text_eq
greeting_names = (refl, tt)

render_template_html-Renders_example :
    Renders (render_template_html lower_ascii inherited values greeting) greeting
render_template_html-Renders_example =
    render_template_html-Renders lower_ascii inherited values greeting greeting_names

-- ===== src/Terminal/Typing/Tests.antt =====
-- The properties at concrete texts.
use openshift_console.Prelude.{All, ◌≡◌, Bool, true, false, List, [], ◌∷◌, inl, inr, refl}
use openshift_console.Prelude.Text.{Text, codes, same}
use openshift_console.Prelude.Text.Keys.{lookup}
use openshift_console.Terminal.Typing.{
  KeyTable, KeyEvent, Sent, normalized, characters, type_text, shifted,
}
use openshift_console.Terminal.Typing.Strokes.{at_rest, watch, type_text-held}
use openshift_console.Terminal.Typing.Reading.{IsTypable, type_text-shown}

abbrev keys : KeyTable
keys = record { xk_return = 65293; xk_tab = 65289; xk_shift_l = 65505; keysym_of = λ c. c }

-- A session that is lost with the first key that is pressed.
abbrev only_shift : List Sent → KeyEvent → Bool
only_shift log e = same e.code (codes "ShiftLeft")

type_text-held_example : (watch at_rest (type_text keys only_shift (codes "Ab")).log).held ≡ false
type_text-held_example = type_text-held keys only_shift (λ log. unfold same in refl) (codes "Ab")

abbrev always : List Sent → KeyEvent → Bool
always log e = true

-- "A:" and a line break of two characters.
abbrev line : Text
line = 65 ∷ 58 ∷ 13 ∷ 10 ∷ []

line-IsTypable : All IsTypable (characters (normalized line))
unfolding characters normalized lookup same
line-IsTypable = (
  inl (shifted (codes "KeyA"), refl),
  (inl (shifted (codes "Semicolon"), refl), (inr (inl refl), tt)),
)

type_text-shown_example :
    (watch at_rest (type_text keys always line).log
      ≡ record { held = false; shown = normalized line })
    × ((type_text keys always line).threw ≡ false)
type_text-shown_example = type_text-shown keys always (λ log e. refl) line line-IsTypable

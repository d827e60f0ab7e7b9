-- ===== src/Terminal/Typing/Layout.antt =====
-- The layout read the other way: the character of a key.
use openshift_console.Prelude.{
  ◌≡◌, ◌&&◌, not, Bool, true, false, List, [], ◌∷◌, Option, none, some, refl, arith, Bool-cases,
  Option-cases, inl, inr, if◌then◌else◌,
}
use openshift_console.Prelude.Text.{Text, codes, same}
use openshift_console.Prelude.Text.Equality.{same→eq}
use openshift_console.Prelude.Text.Keys.{lookup}
use openshift_console.Terminal.Typing.{UsKey, us_layout}

abbrev pub same_flag : Bool → Bool → Bool
same_flag true b = b
same_flag false b = not b

-- The character of a key, with or without Shift: the layout read the other way.
unfoldable pub find_char : List (Text × UsKey) → Bool → Text → Option Text
find_char [] held code = none
find_char ((char, key) ∷ table) held code =
    let rest = find_char table held code in
    if same key.code code && same_flag key.shift held then some char else rest

unfoldable pub char_of : Bool → Text → Option Text
char_of held code =
    if same code (codes "Enter")
    then some (10 ∷ [])
    else if same code (codes "Tab")
    then some (9 ∷ [])
    else find_char us_layout held code

unfoldable pub all_found : List (Text × UsKey) → Bool
all_found [] = true
all_found ((char, key) ∷ table) = elim (char_of key.shift key.code) [
  | none ↦ false
  | some c ↦
      same c char
      && not (same key.code (codes "ShiftLeft"))
      && not (same (10 ∷ []) char)
      && not (same (9 ∷ []) char)
      && all_found table
]

pub us_layout-found : all_found us_layout ≡ true
unfolding all_found char_of find_char same
us_layout-found = refl

abbrev pub shift_left : Text
shift_left = codes "ShiftLeft"

-- A key that is read as the character, and is not Shift.
abbrev pub IsKeyOf : Text → UsKey → Type 0
IsKeyOf char key =
    (char_of key.shift key.code ≡ some char)
    × (same key.code shift_left ≡ false)
    × (same (10 ∷ []) char ≡ false)
    × (same (9 ∷ []) char ≡ false)

found_head :
    (char : Text) (key : UsKey) (table : List (Text × UsKey))
    → all_found ((char, key) ∷ table) ≡ true
    → IsKeyOf char key × (all_found table ≡ true)
unfolding all_found
found_head char key table h = elim (Option-cases (char_of key.shift key.code)) [
  | inl e ↦ absurd (ground arith)
  | inr (c, e) ↦ let s = same→eq c char in ground arith
]

pub found-lookup :
    (table : List (Text × UsKey)) (char : Text) (key : UsKey)
    → all_found table ≡ true
    → lookup table char ≡ some key
    → IsKeyOf char key
unfolding lookup
found-lookup [] char key h e = cc
found-lookup ((c, k) ∷ table) char key h e =
    let (found, rest) = found_head c k table h in
    elim (Bool-cases (same c char)) [
      | inl s ↦ let eq = same→eq c char s in ground arith
      | inr s ↦ found-lookup table char key rest (ground arith)
    ]

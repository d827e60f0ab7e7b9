-- ===== src/Logs/Ansi/Sgr.antt =====
-- The parameters that set a style. `Number` is a parameter: the natural number that a text stands
-- for, and `none` where it stands for none, which the codes pass over.
use openshift_console.Prelude.{
  ℕ, zero, suc, ◌+◌, ◌-◌, Bool, true, false, not, ◌&&◌, ◌||◌, List, [], ◌∷◌, Option, none, some,
  leb, ltb, ◌==◌, if◌then◌else◌, length, get_elem?, take, drop,
}
use openshift_console.Prelude.Text.{Text, codes, same, split}
use openshift_console.Logs.Ansi.Style.{AnsiColor, index, hex, AnsiStyle, plain_style, rgb}

module _ (number : Text → Option ℕ) where
  -- A value that is missing is no byte, and an empty one is 0.
  unfoldable pub as_byte : Option Text → Option ℕ
  as_byte none = none
  as_byte (some []) = some 0
  as_byte (some (c ∷ s)) = elim (number (c ∷ s)) [
    | none ↦ none
    | some n ↦ if leb n 255 then some n else none
  ]

  abbrev pub index_of_byte : Option ℕ → Option AnsiColor
  index_of_byte none = none
  index_of_byte (some n) = some (index n)

  unfoldable pub rgb_of : List Text → Option AnsiColor
  rgb_of parts = elim (as_byte (get_elem? parts 0)) [
    | none ↦ none
    | some r ↦ elim (as_byte (get_elem? parts 1)) [
      | none ↦ none
      | some g ↦ elim (as_byte (get_elem? parts 2)) [
        | none ↦ none
        | some b ↦ some (hex (rgb r g b))
      ]
    ]
  ]

  abbrev pub is_mode : Option Text → ℕ → Bool
  is_mode none mode = false
  is_mode (some s) mode = same s (mode ∷ [])

  -- The colour behind a 38 or 48, and how many of the following parameters belong to it.
  unfoldable pub extended_color : List Text → List Text → Option AnsiColor × ℕ
  extended_color sub rest =
      if ltb 1 (length sub)
      then (if is_mode (get_elem? sub 1) b'5'
          then (index_of_byte (as_byte (get_elem? sub 2)), 0)
          else if is_mode (get_elem? sub 1) b'2'
          then (rgb_of (if leb 6 (length sub) then take 3 (drop 3 sub) else take 3 (drop 2 sub)), 0)
          else (none, 0))
      else if is_mode (get_elem? rest 0) b'5'
      then (index_of_byte (as_byte (get_elem? rest 1)), 2)
      else if is_mode (get_elem? rest 0) b'2'
      then (rgb_of (take 3 (drop 1 rest)), 4)
      else (none, if ltb 0 (length rest) then 1 else 0)

  unfoldable pub set_color : AnsiStyle → ℕ → Option AnsiColor → AnsiStyle
  set_color style code none = style
  set_color style code (some color) =
      if code == 38
      then record style { fg = some color }
      else if code == 48
      then record style { bg = some color }
      else style

  -- The codes that stand alone.
  unfoldable pub simple_code : AnsiStyle → ℕ → List Text → AnsiStyle
  simple_code style code sub =
      if code == 0
      then plain_style
      else if code == 1
      then record style { bold = true }
      else if code == 2
      then record style { dim = true }
      else if code == 3
      then record style { italic = true }
      else if code == 4
      then record style { underline = not (is_mode (get_elem? sub 1) b'0') }
      else if code == 7
      then record style { inverse = true }
      else if code == 8
      then record style { hidden = true }
      else if code == 9
      then record style { strike = true }
      else if code == 21
      then record style { underline = true }
      else if code == 22
      then record style { bold = false; dim = false }
      else if code == 23
      then record style { italic = false }
      else if code == 24
      then record style { underline = false }
      else if code == 27
      then record style { inverse = false }
      else if code == 28
      then record style { hidden = false }
      else if code == 29
      then record style { strike = false }
      else if leb 30 code && leb code 37
      then record style { fg = some (index (code - 30)) }
      else if code == 39
      then record style { fg = none }
      else if leb 40 code && leb code 47
      then record style { bg = some (index (code - 40)) }
      else if code == 49
      then record style { bg = none }
      else if leb 90 code && leb code 97
      then record style { fg = some (index (code - 90 + 8)) }
      else if leb 100 code && leb code 107
      then record style { bg = some (index (code - 100 + 8)) }
      else style

  -- The code itself; an empty one is 0.
  unfoldable pub sub_code : List Text → Option ℕ
  sub_code [] = none
  sub_code ([] ∷ more) = some 0
  sub_code ((c ∷ s) ∷ more) = number (c ∷ s)

  -- A parameter as its sub-parameters, before those that follow: the style, and how many of the
  -- following are used up.
  unfoldable pub sgr_code : AnsiStyle → List Text → List Text → AnsiStyle × ℕ
  sgr_code style sub rest = elim (sub_code sub) [
    | none ↦ (style, 0)
    | some code ↦
        let (color, consumed) = extended_color sub rest in
        if (code == 38) || (code == 48) || (code == 58)
        then (set_color style code color, consumed)
        else (simple_code style code sub, 0)
  ]

  -- The loop over the parameters, with how many are to be passed over.
  unfoldable pub sgr_codes : ℕ → AnsiStyle → List Text → AnsiStyle
  sgr_codes skip style [] = style
  sgr_codes (suc skip) style (p ∷ ps) = sgr_codes skip style ps
  sgr_codes zero style (p ∷ ps) =
      let (next, consumed) = sgr_code style (split b':' p) ps in sgr_codes consumed next ps

  unfoldable pub apply_sgr : AnsiStyle → Text → AnsiStyle
  apply_sgr style params =
      sgr_codes 0 style (if same params [] then codes "0" ∷ [] else split b';' params)

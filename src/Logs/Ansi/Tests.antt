-- ===== src/Logs/Ansi/Tests.antt =====
-- Concrete coloured lines.
use openshift_console.Prelude.{
  true, ℕ, ◌≡◌, [], ◌∷◌, ◌++◌, Option, none, some, if◌then◌else◌, refl, arith,
}
use openshift_console.Prelude.Text.{Text, codes, same, split}
use openshift_console.Prelude.Text.Digits.{digits_value}
use openshift_console.Logs.Ansi.Style.{
  plain_style, index, is_plain, same_style, is_none, rgb, to_hex, hex_digit, palette_color,
}
use openshift_console.Logs.Ansi.Sgr.{
  apply_sgr, sgr_codes, sgr_code, sub_code, simple_code, extended_color, set_color, as_byte,
}
use openshift_console.Logs.Ansi.Scan.{
  esc, has_ansi, scan_escape, scan_csi, scan_string, scan_charset, is_private,
}
use openshift_console.Logs.Ansi.Spans.{
  parse_ansi, parse_loop, push, push_span, shown_style, strip_ansi,
}
use openshift_console.Logs.Ansi.Shown.{marked}
use openshift_console.Logs.Ansi.Commands.{
  Command, IsCommand, reset, bold_on, bright_fg, written, code_of,
}
use openshift_console.Logs.Ansi.Colored.{
  Passage, with_style, cells, printed, colored, passage_texts, parse_ansi-colored,
}

-- The numbers that occur.
abbrev number : Text → Option ℕ
number s =
    if same s (codes "0")
    then some 0
    else if same s (codes "1")
    then some 1
    else if same s (codes "93")
    then some 93
    else if same s (codes "38")
    then some 38
    else if same s (codes "208")
    then some 208
    else none

-- The text with a bold name, an erased line and a title.
abbrev joined_game : Text
joined_game =
    esc
    ∷ (codes "[1;93msteve"
        ++ (esc
            ∷ (codes "[0m joined"
                ++ (esc ∷ (codes "[K" ++ (esc ∷ (codes "]0;x" ++ 7 ∷ codes "!")))))))

spans_run :
    parse_ansi number joined_game
    ≡ record {
      text = codes "steve";
      style = some record plain_style { bold = true; fg = some (index 11) };
    }
      ∷ record { text = codes " joined!"; style = none }
      ∷ []
unfolding parse_ansi parse_loop push push_span shown_style has_ansi scan_escape scan_csi scan_string
    scan_charset is_private apply_sgr sgr_codes sgr_code sub_code simple_code is_plain same_style
    is_none same split
spans_run = refl

palette_run : palette_color 208 ≡ codes "#ff8700"
unfolding palette_color rgb to_hex hex_digit
palette_run = refl

palette_style :
    apply_sgr number plain_style (codes "38;5;208;1")
    ≡ record plain_style { fg = some (index 208); bold = true }
unfolding apply_sgr sgr_codes sgr_code sub_code simple_code extended_color set_color as_byte same
    split
palette_style = refl

-- A reader of digits, which is exact on the codes of all commands.
abbrev decimal : Text → Option ℕ
decimal s = some (digits_value 0 s)

decimal-written : (c : Command) → IsCommand c → decimal (written c) ≡ some (code_of c)
unfolding digits_value
decimal-written c h = ground arith

abbrev steve : Passage
steve = (bold_on, bright_fg 3 ∷ [], codes "steve")

abbrev back : Passage
back = (reset, [], codes " joined")

parse_ansi-colored_example :
    (cells (parse_ansi decimal (codes "> " ++ marked (printed (steve ∷ back ∷ []))))
      ≡ with_style none (codes "> ") ++ colored plain_style (steve ∷ back ∷ []))
    × (strip_ansi decimal (codes "> " ++ marked (printed (steve ∷ back ∷ [])))
        ≡ codes "> " ++ passage_texts (steve ∷ back ∷ []))
parse_ansi-colored_example =
    parse_ansi-colored decimal decimal-written (codes "> ") steve (back ∷ []) (refl, (refl, tt))
      (
        ((tt, (omega arith, tt)), (refl, (refl, (refl, (refl, (refl, tt)))))),
        (((tt, tt), (refl, (refl, (refl, (refl, (refl, (refl, (refl, tt)))))))), tt),
      )

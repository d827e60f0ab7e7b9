-- ===== src/Logs/Ansi/Spans.antt =====
-- The runs of one style.
use openshift_console.Prelude.{
  ℕ, zero, suc, List, [], ◌∷◌, ◌++◌, Option, none, some, if◌then◌else◌, length,
}
use openshift_console.Prelude.Text.{Text, same}
use openshift_console.Logs.Ansi.Style.{AnsiStyle, AnsiSpan, plain_style, is_plain, same_style}
use openshift_console.Logs.Ansi.Sgr.{apply_sgr}
use openshift_console.Logs.Ansi.Scan.{is_escape, has_ansi, scan_escape}

-- A run that is not empty goes to the last span, if it has the style, or makes a new one.
unfoldable pub push_span : List AnsiSpan → Text → Option AnsiStyle → List AnsiSpan
push_span [] chunk current = record { text = chunk; style = current } ∷ []
push_span (last ∷ []) chunk current =
    if same_style last.style current
    then record last { text = last.text ++ chunk } ∷ []
    else last ∷ record { text = chunk; style = current } ∷ []
push_span (s ∷ t ∷ spans) chunk current = s ∷ push_span (t ∷ spans) chunk current

unfoldable pub push : List AnsiSpan → Text → Option AnsiStyle → List AnsiSpan
push spans run current = if same run [] then spans else push_span spans run current

unfoldable pub shown_style : AnsiStyle → Option AnsiStyle
shown_style style = if is_plain style then none else some style

abbrev pub or_empty : List AnsiSpan → List AnsiSpan
or_empty [] = record { text = []; style = none } ∷ []
or_empty (s ∷ spans) = s ∷ spans

module _ (number : Text → Option ℕ) where
  -- The loop, with the rounds left, the run so far and the text from the position on.
  unfoldable pub parse_loop :
      ℕ → List AnsiSpan → AnsiStyle → Option AnsiStyle → Text → Text → List AnsiSpan
  parse_loop rounds spans style current run [] = push spans run current
  parse_loop zero spans style current run (c ∷ s) = push spans run current
  parse_loop (suc rounds) spans style current run (c ∷ s) =
      let plain = parse_loop rounds spans style current (run ++ c ∷ []) s in
      let (rest, sgr) = scan_escape c s in
      let next = parse_loop rounds (push spans run current) in
      if is_escape c
      then elim sgr [
        | none ↦ next style current [] rest
        | some params ↦
            let styled = apply_sgr number style params in next styled (shown_style styled) [] rest
      ]
      else plain

  unfoldable pub parse_ansi : Text → List AnsiSpan
  parse_ansi text =
      if has_ansi text
      then or_empty (parse_loop (length text) [] plain_style none [] text)
      else record { text = text; style = none } ∷ []

-- `spans.map((span) => span.text).join('')`.
abbrev pub texts : List AnsiSpan → Text
texts [] = []
texts (s ∷ spans) = s.text ++ texts spans

unfoldable pub strip_ansi : (Text → Option ℕ) → Text → Text
strip_ansi number text = if has_ansi text then texts (parse_ansi number text) else text

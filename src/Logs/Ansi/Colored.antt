-- ===== src/Logs/Ansi/Colored.antt =====
-- A text with changes of style, character by character.
use openshift_console.Prelude.{
  All, ℕ, ◌≡◌, Bool, true, ◌&&◌, List, [], ◌∷◌, ◌++◌, Option, none, some, if◌then◌else◌, refl, sym,
  ap, ◌∙◌, arith, Bool-cases, inl, inr, append-nil, append_assoc,
}
use openshift_console.Prelude.Text.{Text, same}
use openshift_console.Prelude.Text.Equality.{same→eq}
use openshift_console.Logs.Ansi.Style.{
  AnsiStyle, AnsiSpan, AnsiColor, index, hex, plain_style, is_plain, is_none, same_style,
  same_color, same_flag,
}
use openshift_console.Logs.Ansi.Spans.{
  push_span, push, shown_style, parse_ansi, strip_ansi, or_empty,
}
use openshift_console.Logs.Ansi.Runs.{IsClean}
use openshift_console.Logs.Ansi.Shown.{
  Piece, IsPiece, marked, piece_texts, runs_of, parse_ansi-marked,
}
use openshift_console.Logs.Ansi.Commands.{
  Command, IsCommand, effects, params_of, params_of-IsParams, written, code_of,
}
use openshift_console.Logs.Ansi.Effects.{apply_sgr-effects}

-- A character and its style, `none` for that of the surrounding text.
abbrev pub Cell : Type 0
Cell = ℕ × Option AnsiStyle

abbrev pub with_style : Option AnsiStyle → Text → List Cell
with_style style [] = []
with_style style (c ∷ s) = (c, style) ∷ with_style style s

-- The characters of the runs.
abbrev pub cells : List AnsiSpan → List Cell
cells [] = []
cells (s ∷ spans) = with_style s.style s.text ++ cells spans

-- Some commands, the first and the others, and the text behind them.
abbrev pub Passage : Type 0
Passage = Command × List Command × Text

abbrev pub IsPassage : Passage → Type 0
IsPassage (c, cs, text) = All IsCommand (c ∷ cs) × IsClean text

-- Each passage as it stands in a log.
abbrev pub printed : List Passage → List Piece
printed [] = []
printed ((c, cs, text) ∷ rest) = (params_of (c ∷ cs), text) ∷ printed rest

-- A style as it is seen: the plain one is that of the surrounding text.
abbrev pub seen : AnsiStyle → Option AnsiStyle
seen s = if same_style (some s) (some plain_style) then none else some s

-- The texts, each in the style that all commands so far have made.
abbrev pub colored : AnsiStyle → List Passage → List Cell
colored style [] = []
colored style ((c, cs, text) ∷ rest) =
    let next = effects (c ∷ cs) style in with_style (seen next) text ++ colored next rest

abbrev pub passage_texts : List Passage → Text
passage_texts [] = []
passage_texts ((c, cs, text) ∷ rest) = text ++ passage_texts rest

shown_style-seen : (s : AnsiStyle) → shown_style s ≡ seen s
unfolding shown_style is_plain is_none same_style same_color same_flag
shown_style-seen s = ground arith

same_flag_lem : (a b : Bool) → same_flag a b ≡ true → a ≡ b
unfolding same_flag
same_flag_lem a b h = ground arith

same_color_lem : (a b : Option AnsiColor) → same_color a b ≡ true → a ≡ b
unfolding same_color
same_color_lem none none h = refl
same_color_lem none (some d) h = cc
same_color_lem (some c) none h = cc
same_color_lem (some (index m)) (some (index n)) h = ap (λ k. some (index k)) (ground arith)
same_color_lem (some (index m)) (some (hex t)) h = cc
same_color_lem (some (hex s)) (some (index n)) h = cc
same_color_lem (some (hex s)) (some (hex t)) h = ap (λ u. some (hex u)) (same→eq s t h)

all_true :
    (a b c d e f g h i : Bool)
    → (a && b && c && d && e && f && g && h && i) ≡ true
    → (a ≡ true)
      × (b ≡ true)
      × (c ≡ true)
      × (d ≡ true)
      × (e ≡ true)
      × (f ≡ true)
      × (g ≡ true)
      × (h ≡ true)
      × (i ≡ true)
all_true a b c d e f g h i p = ground arith

same_style-eq : (a b : Option AnsiStyle) → same_style a b ≡ true → a ≡ b
unfolding same_style
same_style-eq none none h = refl
same_style-eq none (some b) h = cc
same_style-eq (some a) none h = cc
same_style-eq (some a) (some b) h =
    let (f, g, o, d, i, u, v, n, k) = all_true _ _ _ _ _ _ _ _ _ h in
    rw
      (
        same_color_lem a.fg b.fg f,
        same_color_lem a.bg b.bg g,
        same_flag_lem a.bold b.bold o,
        same_flag_lem a.dim b.dim d,
        same_flag_lem a.italic b.italic i,
        same_flag_lem a.underline b.underline u,
        same_flag_lem a.inverse b.inverse v,
        same_flag_lem a.hidden b.hidden n,
        same_flag_lem a.strike b.strike k,
      )
      refl

with_style-append :
    (style : Option AnsiStyle) (s t : Text)
    → with_style style (s ++ t) ≡ with_style style s ++ with_style style t
with_style-append style [] t = refl
with_style-append style (c ∷ s) t =
    ap {A = List Cell} {B = List Cell} (λ l. (c, style) ∷ l) (with_style-append style s t)

cells-push_span :
    (spans : List AnsiSpan) (chunk : Text) (current : Option AnsiStyle)
    → cells (push_span spans chunk current) ≡ cells spans ++ with_style current chunk
unfolding push_span
cells-push_span [] chunk current = append-nil (with_style current chunk)
cells-push_span (s ∷ []) chunk current = elim (Bool-cases (same_style s.style current)) [
  | inl m ↦
      rw (push_span, m)
        (append-nil (with_style s.style (s.text ++ chunk))
          ∙ with_style-append s.style s.text chunk
          ∙ ap (λ st. with_style s.style s.text ++ with_style st chunk)
              (same_style-eq s.style current m)
          ∙ ap (λ l. l ++ with_style current chunk) (sym (append-nil (with_style s.style s.text))))
  | inr m ↦
      rw (push_span, m)
        (ap (λ l. with_style s.style s.text ++ l) (append-nil (with_style current chunk))
          ∙ ap (λ l. l ++ with_style current chunk) (sym (append-nil (with_style s.style s.text))))
]
cells-push_span (s ∷ t ∷ spans) chunk current =
    ap (λ l. with_style s.style s.text ++ l) (cells-push_span (t ∷ spans) chunk current)
    ∙ sym (append_assoc (with_style s.style s.text) (cells (t ∷ spans)) (with_style current chunk))

cells-push :
    (spans : List AnsiSpan) (run : Text) (current : Option AnsiStyle)
    → cells (push spans run current) ≡ cells spans ++ with_style current run
unfolding push
cells-push spans [] current = unfold same in sym (append-nil (cells spans))
cells-push spans (c ∷ run) current = unfold same in cells-push_span spans (c ∷ run) current

cells-or_empty : (spans : List AnsiSpan) → cells (or_empty spans) ≡ cells spans
cells-or_empty [] = refl
cells-or_empty (s ∷ spans) = refl

printed-IsPiece : (ps : List Passage) → All IsPassage ps → All IsPiece (printed ps)
printed-IsPiece [] h = tt
printed-IsPiece ((c, cs, text) ∷ rest) ((made, clean), h) =
    ((params_of-IsParams c cs made, clean), printed-IsPiece rest h)

printed-texts : (ps : List Passage) → piece_texts (printed ps) ≡ passage_texts ps
printed-texts [] = refl
printed-texts ((c, cs, text) ∷ rest) = ap (λ t. text ++ t) (printed-texts rest)

module _ (number : Text → Option ℕ)
    (reads : (c : Command) → IsCommand c → number (written c) ≡ some (code_of c)) where
  cells-runs_of :
      (spans : List AnsiSpan) (style : AnsiStyle) (current : Option AnsiStyle) (run : Text)
      (ps : List Passage)
      → All IsPassage ps
      → cells (runs_of number spans style current run (printed ps))
        ≡ cells spans ++ (with_style current run ++ colored style ps)
  cells-runs_of spans style current run [] h =
      cells-push spans run current
      ∙ ap (λ l. cells spans ++ l) (sym (append-nil (with_style current run)))
  cells-runs_of spans style current run ((c, cs, text) ∷ rest) ((made, clean), h) =
      let next = effects (c ∷ cs) style in
      ap
        (λ st.
          cells (runs_of number (push spans run current) st (shown_style st) text (printed rest)))
        (apply_sgr-effects number reads c cs style made)
      ∙ cells-runs_of (push spans run current) next (shown_style next) text rest h
      ∙ ap (λ l. l ++ (with_style (shown_style next) text ++ colored next rest))
          (cells-push spans run current)
      ∙ append_assoc (cells spans) (with_style current run)
          (with_style (shown_style next) text ++ colored next rest)
      ∙ ap
          (λ st.
            cells spans ++ (with_style current run ++ (with_style st text ++ colored next rest)))
          (shown_style-seen next)

  -- A text, and passages behind changes of style (the attributes and the sixteen basic colours), all
  -- without escape characters, where the parser of numbers reads the codes of the changes: each
  -- character is shown in the style that all changes in
  -- front of it make of the plain one, and in the surrounding style where they make the plain one or
  -- there is none; with the sequences taken out, what is left is the texts in their order.
  pub parse_ansi-colored :
      (lead : Text) (passage : Passage) (rest : List Passage)
      → IsClean lead
      → All IsPassage (passage ∷ rest)
      → (cells (parse_ansi number (lead ++ marked (printed (passage ∷ rest))))
          ≡ with_style none lead ++ colored plain_style (passage ∷ rest))
        × (strip_ansi number (lead ++ marked (printed (passage ∷ rest)))
            ≡ lead ++ passage_texts (passage ∷ rest))
  parse_ansi-colored lead (c, cs, text) rest clean h =
      let passage : Passage = (c, cs, text) in
      let (shown, left) =
        parse_ansi-marked number lead (params_of (c ∷ cs), text) (printed rest) clean
          (printed-IsPiece (passage ∷ rest) h) in
      (
        ap cells shown
            ∙ cells-or_empty (runs_of number [] plain_style none lead (printed (passage ∷ rest)))
            ∙ cells-runs_of [] plain_style none lead (passage ∷ rest) h,
        left ∙ ap (λ t. lead ++ t) (printed-texts (passage ∷ rest)),
      )

-- ===== src/Logs/Ansi/Shown.antt =====
-- What is shown of a text whose escape sequences are those that set a style.
use openshift_console.Prelude.{
  ℕ, zero, suc, ◌≤◌, ◌≡◌, true, false, ◌&&◌, ◌||◌, List, [], ◌∷◌, ◌++◌, Option, none, some, leb,
  ltb, length, refl, sym, ap, ◌∙◌, arith, inl, inr, Bool-cases, append_assoc, append-nil,
  length-append, All,
}
use openshift_console.Prelude.Text.{Text, same}
use openshift_console.Logs.Ansi.Style.{AnsiStyle, AnsiSpan, plain_style, same_style}
use openshift_console.Logs.Ansi.Sgr.{apply_sgr}
use openshift_console.Logs.Ansi.Scan.{esc, is_escape, has_ansi, is_private, scan_csi, scan_escape}
use openshift_console.Logs.Ansi.Spans.{
  push_span, push, shown_style, parse_loop, parse_ansi, texts, strip_ansi, or_empty,
}
use openshift_console.Logs.Ansi.Runs.{IsClean}

-- Digits, colons and semicolons.
abbrev pub IsParams : Text → Type 0
IsParams [] = Unit
IsParams (c ∷ s) = ((leb 48 c && leb c 59) ≡ true) × IsParams s

-- A change of style and the text behind it.
abbrev pub Piece : Type 0
Piece = Text × Text

abbrev pub IsPiece : Piece → Type 0
IsPiece (params, text) = IsParams params × IsClean text

-- Each piece as it stands in a log: `ESC [ params m text`.
abbrev pub marked : List Piece → Text
marked [] = []
marked ((params, text) ∷ pieces) = esc ∷ b'[' ∷ (params ++ b'm' ∷ (text ++ marked pieces))

is_private-append :
    (done : Text) (c : ℕ)
    → is_private done ≡ false
    → (leb 60 c && leb c 63) ≡ false
    → is_private (done ++ c ∷ []) ≡ false
unfolding is_private
is_private-append [] c h e = rw e refl
is_private-append (d ∷ done) c h e = elim (Bool-cases (leb 60 d && leb d 63)) [
  | inl w ↦ let u : true ≡ false = rw (w, is_private) at h in cc
  | inr w ↦ rw (w, is_private) (is_private-append done c (rw (w, is_private) at h) e)
]

scan_csi-params :
    (done params rest : Text)
    → IsParams params
    → is_private done ≡ false
    → scan_csi done (params ++ b'm' ∷ rest) ≡ (rest, some (done ++ params))
unfolding scan_csi
scan_csi-params done [] rest h k = rw k (ap (λ t. (rest, some t)) (sym (append-nil done)))
scan_csi-params done (c ∷ params) rest (e, h) k =
    let ends : (leb 64 c && leb c 126) ≡ false = ground arith in
    let breaks : (ltb c 32 || ltb 63 c) ≡ false = ground arith in
    rw (ends, breaks)
      (scan_csi-params (done ++ c ∷ []) params rest h (is_private-append done c k (ground arith))
        ∙ ap (λ t. (rest, some t)) (append_assoc done (c ∷ []) params))

has_ansi-append : (s t : Text) → has_ansi (s ++ esc ∷ t) ≡ true
unfolding has_ansi
has_ansi-append [] t = refl
has_ansi-append (c ∷ s) t = elim (Bool-cases (is_escape c)) [
  | inl e ↦ rw (has_ansi, e) refl
  | inr e ↦ rw (has_ansi, e) (has_ansi-append s t)
]

abbrev pub piece_texts : List Piece → Text
piece_texts [] = []
piece_texts ((params, text) ∷ pieces) = text ++ piece_texts pieces

texts-push_span :
    (spans : List AnsiSpan) (chunk : Text) (current : Option AnsiStyle)
    → texts (push_span spans chunk current) ≡ texts spans ++ chunk
unfolding push_span
texts-push_span [] chunk current = append-nil chunk
texts-push_span (s ∷ []) chunk current = elim (Bool-cases (same_style s.style current)) [
  | inl m ↦
      rw (push_span, m)
        (append-nil (s.text ++ chunk) ∙ ap (λ t. t ++ chunk) (sym (append-nil s.text)))
  | inr m ↦
      rw (push_span, m)
        (ap (λ t. s.text ++ t) (append-nil chunk) ∙ ap (λ t. t ++ chunk) (sym (append-nil s.text)))
]
texts-push_span (s ∷ t ∷ spans) chunk current =
    ap (λ u. s.text ++ u) (texts-push_span (t ∷ spans) chunk current)
    ∙ sym (append_assoc s.text (texts (t ∷ spans)) chunk)

pub texts-push :
    (spans : List AnsiSpan) (run : Text) (current : Option AnsiStyle)
    → texts (push spans run current) ≡ texts spans ++ run
unfolding push
texts-push spans [] current = unfold same in sym (append-nil (texts spans))
texts-push spans (c ∷ run) current = unfold same in texts-push_span spans (c ∷ run) current

pub texts-or_empty : (spans : List AnsiSpan) → texts (or_empty spans) ≡ texts spans
texts-or_empty [] = refl
texts-or_empty (s ∷ spans) = refl

module _ (number : Text → Option ℕ) where
  -- The runs, with the style that holds and the run so far.
  abbrev pub runs_of :
      List AnsiSpan → AnsiStyle → Option AnsiStyle → Text → List Piece → List AnsiSpan
  runs_of spans style current run [] = push spans run current
  runs_of spans style current run ((params, text) ∷ pieces) =
      let next = apply_sgr number style params in
      runs_of (push spans run current) next (shown_style next) text pieces

  parse_loop-text :
      (spans : List AnsiSpan) (style : AnsiStyle) (current : Option AnsiStyle)
      (run text rest : Text) (result : List AnsiSpan)
      → IsClean text
      → ((rounds : ℕ)
          → length rest ≤ rounds
          → parse_loop number rounds spans style current (run ++ text) rest ≡ result)
      → (rounds : ℕ) → length (text ++ rest) ≤ rounds
      → parse_loop number rounds spans style current run (text ++ rest) ≡ result
  unfolding parse_loop
  parse_loop-text spans style current run [] rest result h k rounds enough =
      ap (λ r. parse_loop number rounds spans style current r rest) (sym (append-nil run))
      ∙ k rounds enough
  parse_loop-text spans style current run (c ∷ text) rest result (e, h) k zero enough =
      absurd (omega arith)
  parse_loop-text spans style current run (c ∷ text) rest result (e, h) k (suc rounds) enough =
      rw (parse_loop, e)
        (parse_loop-text spans style current (run ++ c ∷ []) text rest result h
          (λ n more.
            ap (λ r. parse_loop number n spans style current r rest)
              (append_assoc run (c ∷ []) text)
            ∙ k n more)
          rounds (omega arith))

  parse_loop-marked :
      (spans : List AnsiSpan) (style : AnsiStyle) (current : Option AnsiStyle) (run : Text)
      (pieces : List Piece)
      → All IsPiece pieces
      → (rounds : ℕ) → length (marked pieces) ≤ rounds
      → parse_loop number rounds spans style current run (marked pieces)
        ≡ runs_of spans style current run pieces
  unfolding parse_loop
  parse_loop-marked spans style current run [] h rounds enough = refl
  parse_loop-marked spans style current run ((params, text) ∷ pieces) ((p, c), h) zero enough =
      absurd (omega arith)
  parse_loop-marked spans style current run ((params, text) ∷ pieces) ((p, c), h) (suc rounds)
        enough =
      let rest = text ++ marked pieces in
      let seq : scan_escape esc (b'[' ∷ (params ++ b'm' ∷ rest)) ≡ (rest, some params) =
        unfold scan_escape in scan_csi-params [] params rest p (unfold is_private in refl) in
      let next = apply_sgr number style params in
      rw (parse_loop, seq, seq)
        (parse_loop-text (push spans run current) next (shown_style next) [] text (marked pieces)
          (runs_of (push spans run current) next (shown_style next) text pieces) c
          (λ n more.
            parse_loop-marked (push spans run current) next (shown_style next) text pieces h n more)
          rounds (omega (arith, length-append params (b'm' ∷ rest))))

  texts-runs_of :
      (spans : List AnsiSpan) (style : AnsiStyle) (current : Option AnsiStyle) (run : Text)
      (pieces : List Piece)
      → texts (runs_of spans style current run pieces) ≡ texts spans ++ (run ++ piece_texts pieces)
  texts-runs_of spans style current run [] =
      texts-push spans run current ∙ ap (λ t. texts spans ++ t) (sym (append-nil run))
  texts-runs_of spans style current run ((params, text) ∷ pieces) =
      let next = apply_sgr number style params in
      texts-runs_of (push spans run current) next (shown_style next) text pieces
      ∙ ap (λ t. t ++ (text ++ piece_texts pieces)) (texts-push spans run current)
      ∙ append_assoc (texts spans) run (text ++ piece_texts pieces)

  -- The loop goes from piece to piece.
  pub parse_ansi-marked :
      (lead : Text) (piece : Piece) (pieces : List Piece)
      → IsClean lead
      → All IsPiece (piece ∷ pieces)
      → (parse_ansi number (lead ++ marked (piece ∷ pieces))
          ≡ or_empty (runs_of [] plain_style none lead (piece ∷ pieces)))
        × (strip_ansi number (lead ++ marked (piece ∷ pieces))
            ≡ lead ++ piece_texts (piece ∷ pieces))
  unfolding parse_ansi strip_ansi
  parse_ansi-marked lead piece pieces clean h =
      let text = lead ++ marked (piece ∷ pieces) in
      let marks = has_ansi-append lead (b'[' ∷ (piece.0 ++ b'm' ∷ (piece.1 ++ marked pieces))) in
      let runs : parse_loop number (length text) [] plain_style none [] text
          ≡ runs_of [] plain_style none lead (piece ∷ pieces) =
        parse_loop-text [] plain_style none [] lead (marked (piece ∷ pieces)) _ clean
          (parse_loop-marked [] plain_style none lead (piece ∷ pieces) h) (length text)
          (omega arith) in
      let spans = runs_of [] plain_style none lead (piece ∷ pieces) in
      let shown : parse_ansi number text ≡ or_empty spans =
        rw (parse_ansi, marks) (ap or_empty runs) in
      (
        shown,
        rw (strip_ansi, marks)
            (ap texts (ap or_empty runs)
              ∙ texts-or_empty spans
              ∙ texts-runs_of [] plain_style none lead (piece ∷ pieces)),
      )

-- ===== src/Logs/Ansi/Runs.antt =====
-- The runs are not empty, hold no escape character, and change their style from one to the next.
use openshift_console.Prelude.{
  ℕ, zero, suc, ◌≡◌, ◌⊎◌, inl, inr, true, false, List, [], ◌∷◌, ◌++◌, Option, none, length, refl,
  Bool-cases, Option-cases,
}
use openshift_console.Prelude.Text.{Text, same}
use openshift_console.Logs.Ansi.Style.{AnsiStyle, AnsiSpan, plain_style, same_style}
use openshift_console.Logs.Ansi.Sgr.{apply_sgr}
use openshift_console.Logs.Ansi.Scan.{is_escape, has_ansi, scan_escape}
use openshift_console.Logs.Ansi.Spans.{
  push_span, push, shown_style, parse_loop, parse_ansi, texts, strip_ansi, or_empty,
}

abbrev pub IsClean : Text → Type 0
IsClean [] = Unit
IsClean (c ∷ s) = (is_escape c ≡ false) × IsClean s

abbrev pub IsRun : AnsiSpan → Type 0
IsRun s = (same s.text [] ≡ false) × IsClean s.text

abbrev pub IsRuns : List AnsiSpan → Type 0
IsRuns [] = Unit
IsRuns (s ∷ []) = IsRun s
IsRuns (s ∷ t ∷ spans) = IsRun s × (same_style s.style t.style ≡ false) × IsRuns (t ∷ spans)

-- One run at least.
abbrev pub AreRuns : List AnsiSpan → Type 0
AreRuns [] = ⊥
AreRuns (s ∷ spans) = IsRuns (s ∷ spans)

pub IsClean-append : (s t : Text) → IsClean s → IsClean t → IsClean (s ++ t)
IsClean-append [] t h k = k
IsClean-append (c ∷ s) t (e, h) k = (e, IsClean-append s t h k)

pub has_ansi-IsClean : (s : Text) → has_ansi s ≡ false → IsClean s
unfolding has_ansi
has_ansi-IsClean [] h = tt
has_ansi-IsClean (c ∷ s) h = elim (Bool-cases (is_escape c)) [
  | inl e ↦ let w : true ≡ false = rw (e, has_ansi) at h in cc
  | inr e ↦ (e, has_ansi-IsClean s (rw (e, has_ansi) at h))
]

filled-append : (s t : Text) → same s [] ≡ false → same (s ++ t) [] ≡ false
unfolding same
filled-append [] t h = cc
filled-append (c ∷ s) t h = refl

push_span-IsRuns :
    (spans : List AnsiSpan) (chunk : Text) (current : Option AnsiStyle)
    → IsRuns spans
    → same chunk [] ≡ false
    → IsClean chunk
    → IsRuns (push_span spans chunk current)
unfolding push_span
push_span-IsRuns [] chunk current h e k = (e, k)
push_span-IsRuns (s ∷ []) chunk current (f, c) e k =
    elim (Bool-cases (same_style s.style current)) [
      | inl m ↦ rw (push_span, m) (filled-append s.text chunk f, IsClean-append s.text chunk c k)
      | inr m ↦ rw (push_span, m) ((f, c), m, (e, k))
    ]
push_span-IsRuns (s ∷ t ∷ []) chunk current (r, d, (f, c)) e k =
    elim (Bool-cases (same_style t.style current)) [
      | inl m ↦
          rw (push_span, m) (r, d, (filled-append t.text chunk f, IsClean-append t.text chunk c k))
      | inr m ↦ rw (push_span, m) (r, d, ((f, c), m, (e, k)))
    ]
push_span-IsRuns (s ∷ t ∷ u ∷ spans) chunk current (r, d, h) e k =
    (r, d, push_span-IsRuns (t ∷ u ∷ spans) chunk current h e k)

push-IsRuns :
    (spans : List AnsiSpan) (run : Text) (current : Option AnsiStyle)
    → IsRuns spans
    → IsClean run
    → IsRuns (push spans run current)
unfolding push
push-IsRuns spans run current h k = elim (Bool-cases (same run [])) [
  | inl e ↦ rw (push, e) h
  | inr e ↦ rw (push, e) (push_span-IsRuns spans run current h e k)
]

abbrev pub blank : AnsiSpan
blank = record { text = []; style = none }

or_empty-IsRuns :
    (spans : List AnsiSpan)
    → IsRuns spans
    → AreRuns (or_empty spans) ⊎ (or_empty spans ≡ blank ∷ [])
or_empty-IsRuns [] h = inr refl
or_empty-IsRuns (s ∷ spans) h = inl h

module _ (number : Text → Option ℕ) where
  parse_loop-IsRuns :
      (rounds : ℕ) (spans : List AnsiSpan) (style : AnsiStyle) (current : Option AnsiStyle)
      (run s : Text)
      → IsRuns spans
      → IsClean run
      → IsRuns (parse_loop number rounds spans style current run s)
  unfolding parse_loop
  parse_loop-IsRuns rounds spans style current run [] h k = push-IsRuns spans run current h k
  parse_loop-IsRuns zero spans style current run (c ∷ s) h k = push-IsRuns spans run current h k
  parse_loop-IsRuns (suc rounds) spans style current run (c ∷ s) h k =
      let pushed = push-IsRuns spans run current h k in
      elim (Bool-cases (is_escape c)) [
        | inr e ↦
            rw (parse_loop, e)
              (parse_loop-IsRuns rounds spans style current (run ++ c ∷ []) s h
                (IsClean-append run (c ∷ []) k (e, tt)))
        | inl e ↦ elim (Option-cases (scan_escape c s).1) [
          | inl none_set ↦
              rw (parse_loop, e, none_set)
                (parse_loop-IsRuns rounds (push spans run current) style current []
                  (scan_escape c s).0 pushed tt)
          | inr (params, set) ↦
              rw (parse_loop, e, set)
                (let styled = apply_sgr number style params in
                  parse_loop-IsRuns rounds (push spans run current) styled (shown_style styled) []
                    (scan_escape c s).0 pushed tt)
        ]
      ]

  pub parse_ansi-AreRuns :
      (text : Text) → AreRuns (parse_ansi number text) ⊎ (parse_ansi number text ≡ blank ∷ [])
  unfolding parse_ansi
  parse_ansi-AreRuns [] = unfold has_ansi in inr refl
  parse_ansi-AreRuns (c ∷ s) = elim (Bool-cases (has_ansi (c ∷ s))) [
    | inr e ↦ rw (parse_ansi, e) (inl (unfold same in refl, has_ansi-IsClean (c ∷ s) e))
    | inl e ↦
        rw (parse_ansi, e)
          (or_empty-IsRuns (parse_loop number (length (c ∷ s)) [] plain_style none [] (c ∷ s))
            (parse_loop-IsRuns (length (c ∷ s)) [] plain_style none [] (c ∷ s) tt tt))
  ]

texts-IsClean : (spans : List AnsiSpan) → IsRuns spans → IsClean (texts spans)
texts-IsClean [] h = tt
texts-IsClean (s ∷ []) (e, h) = IsClean-append s.text [] h tt
texts-IsClean (s ∷ t ∷ spans) ((e, h), d, hs) =
    IsClean-append s.text (texts (t ∷ spans)) h (texts-IsClean (t ∷ spans) hs)

texts-AreRuns : (spans : List AnsiSpan) → AreRuns spans → IsClean (texts spans)
texts-AreRuns [] h = absurd h
texts-AreRuns (s ∷ spans) h = texts-IsClean (s ∷ spans) h

pub strip_ansi-IsClean : (number : Text → Option ℕ) (text : Text) → IsClean (strip_ansi number text)
unfolding strip_ansi
strip_ansi-IsClean number text = elim (Bool-cases (has_ansi text)) [
  | inr e ↦ rw (strip_ansi, e) (has_ansi-IsClean text e)
  | inl e ↦
      rw (strip_ansi, e)
        (elim (parse_ansi-AreRuns number text) [
          | inl runs ↦ texts-AreRuns (parse_ansi number text) runs
          | inr none_shown ↦ rw none_shown tt
        ])
]

-- ===== src/Logs/Stream/Reading.antt =====
-- The buffer of a request that is read from its start to its end.
use openshift_console.Prelude.{
  ℕ, ◌≡◌, ◌++◌, ◌∷◌, List, [], refl, ap, sym, ◌∙◌, arith, inl, inr, append-nil, drop_all, ◌-◌, ◌≢◌,
}
use openshift_console.Prelude.Text.{Text, split}
use openshift_console.Logs.Buffer.{LogBuffer, append, flush_partial, clear}
use openshift_console.Logs.Buffer.View.{IsValid, lines, partial}
use openshift_console.Logs.Buffer.Spec.{whole_lines, remainder, newest, trim_cr}
use openshift_console.Logs.Buffer.Chunks.{whole_lines-append, remainder-append, newest-newest}
use openshift_console.Logs.Buffer.Stream.{append-Gains, flush_partial-Gains}
use openshift_console.Logs.Buffer.History.{clear-IsValid}
use mathlib.Core.Path.{ap₂}

-- The lines of a whole text, the last one with no line break behind it too.
unfoldable pub last_line : Text → List Text
last_line [] = []
last_line (c ∷ s) = trim_cr (c ∷ s) ∷ []

last_line-some : (s : Text) → s ≢ [] → last_line s ≡ trim_cr s ∷ []
unfolding last_line
last_line-some [] h = absurd (h refl)
last_line-some (c ∷ s) h = refl

-- A buffer that was given a text since it was empty.
pub record HasRead (n : ℕ) (b : LogBuffer) (t : Text) : Type 0 where
  pub valid : IsValid b
  pub capped : b.max_lines ≡ n
  pub shown : lines b ≡ newest n (whole_lines t)
  pub unfinished : partial b ≡ remainder t

pub clear-HasRead : (b : LogBuffer) → IsValid b → HasRead b.max_lines (clear b) []
unfolding whole_lines remainder newest split
clear-HasRead b v =
    let c = clear-IsValid b v in
    record {
      valid = c.0;
      capped = unfold clear in refl;
      shown = c.1 ∙ sym (drop_all (0 - b.max_lines) [] (omega arith));
      unfinished = c.2;
    }

-- What is read goes on with what comes next.
pub append-HasRead :
    (n : ℕ) (b : LogBuffer) (t u : Text) → HasRead n b t → HasRead n (append b u) (t ++ u)
append-HasRead n b t [] h = unfold append in rw (append-nil t) h
append-HasRead n b t (c ∷ u) h =
    let g = append-Gains b c u h.valid in
    record {
      valid = g.valid;
      capped = g.same_max ∙ h.capped;
      shown =
          g.shown
          ∙ ap₂ (λ ls r. newest b.max_lines (ls ++ whole_lines (r ++ c ∷ u))) h.shown h.unfinished
          ∙ ap (λ m. newest m (newest n (whole_lines t) ++ whole_lines (remainder t ++ c ∷ u)))
              h.capped
          ∙ newest-newest n (whole_lines t) (whole_lines (remainder t ++ c ∷ u))
          ∙ ap (newest n) (sym (whole_lines-append t (c ∷ u)));
      unfinished =
          g.unfinished
          ∙ ap (λ r. remainder (r ++ c ∷ u)) h.unfinished
          ∙ sym (remainder-append t (c ∷ u));
    }

-- The last line goes in with the end of the text.
pub flush_partial-HasRead :
    (n : ℕ) (b : LogBuffer) (t : Text)
    → HasRead n b t
    → lines (flush_partial b) ≡ newest n (whole_lines t ++ last_line (remainder t))
flush_partial-HasRead n b t h = elim (flush_partial-Gains b h.valid) [
  | inl (nothing, same) ↦
      ap lines same
      ∙ h.shown
      ∙ sym (
          ap (λ r. newest n (whole_lines t ++ last_line r)) (sym h.unfinished ∙ nothing)
          ∙ unfold last_line in ap (newest n) (append-nil (whole_lines t)))
  | inr (something, g) ↦
      g.shown
      ∙ ap₂ (λ ls m. newest m (ls ++ trim_cr (partial b) ∷ [])) h.shown h.capped
      ∙ newest-newest n (whole_lines t) (trim_cr (partial b) ∷ [])
      ∙ ap (λ l. newest n (whole_lines t ++ l))
          (sym (last_line-some (partial b) something) ∙ ap last_line h.unfinished)
]

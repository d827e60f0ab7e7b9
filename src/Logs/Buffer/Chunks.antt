-- ===== src/Logs/Buffer/Chunks.antt =====
-- How the stream is cut into chunks makes no difference to what the buffer shows.
use openshift_console.Prelude.{
  ℕ, ◌+◌, ◌-◌, ◌≡◌, List, ◌∷◌, ◌++◌, map, length, drop, arith, sym, ap, ◌∙◌, length-append,
  length-drop, drop-append, drop-drop, append_assoc,
}
use mathlib.Core.Path.{ap₂}
use mathlib.Core.List.{map-append}
use openshift_console.Prelude.Int.{ℤ, pos, ◌+ℤ◌, int_laws}
use openshift_console.Prelude.Text.{Text, split, front_parts, last_part}
use openshift_console.Prelude.Text.Lines.{
  split-append, split-cases, front_parts-append, last_part-append,
}
use openshift_console.Logs.Buffer.{LogBuffer, append, newline}
use openshift_console.Logs.Buffer.View.{lines, partial, IsValid}
use openshift_console.Logs.Buffer.Spec.{whole_lines, remainder, newest, trim_cr}
use openshift_console.Logs.Buffer.Stream.{append-Gains}

pub whole_lines-append :
    (s t : Text) → whole_lines (s ++ t) ≡ whole_lines s ++ whole_lines (remainder s ++ t)
unfolding whole_lines remainder
whole_lines-append s t =
    let (p, ps, e) = split-cases newline (last_part (split newline s) ++ t) in
    rw (split-append newline s t, e)
      (ap (map trim_cr) (front_parts-append (front_parts (split newline s)) p ps)
        ∙ map-append trim_cr _ _)

pub remainder-append : (s t : Text) → remainder (s ++ t) ≡ remainder (remainder s ++ t)
unfolding remainder
remainder-append s t =
    let (p, ps, e) = split-cases newline (last_part (split newline s) ++ t) in
    rw (split-append newline s t, e) (last_part-append (front_parts (split newline s)) p ps)

module _ {ℓ} {A : Type ℓ} (n : ℕ) (xs ys : List A) where
  newest-append : newest n xs ++ ys ≡ drop (length xs - n) (xs ++ ys)
  unfolding newest
  newest-append = sym (drop-append (length xs - n) xs ys (omega arith))

  length-newest : length (newest n xs ++ ys) ≡ length xs + length ys - (length xs - n)
  length-newest =
      ap length newest-append
      ∙ length-drop (length xs - n) (xs ++ ys)
      ∙ ap (λ k. k - (length xs - n)) (length-append xs ys)

  -- Keeping the newest twice is keeping them once.
  pub newest-newest : newest n (newest n xs ++ ys) ≡ newest n (xs ++ ys)
  newest-newest =
      ap (newest n) newest-append
      ∙ (unfold newest in
          drop-drop _ (length xs - n) (length (xs ++ ys) - n) (xs ++ ys)
            (omega (arith, length-drop (length xs - n) (xs ++ ys), length-append xs ys)))

  pub dropped_twice : (length xs - n) + (length (newest n xs ++ ys) - n) ≡ length (xs ++ ys) - n
  dropped_twice = omega (arith, length-newest, length-append xs ys)

+ℤ-pos : (a : ℤ) (m n : ℕ) → a +ℤ pos m +ℤ pos n ≡ a +ℤ pos (m + n)
+ℤ-pos a m n = omega int_laws

-- Two chunks in a row show what the one chunk that they make would: the same lines under the same
-- sequence numbers, and the same unfinished text.
pub append-append :
    (b : LogBuffer) (c : ℕ) (x : Text) (d : ℕ) (y : Text)
    → IsValid b
    → (lines (append (append b (c ∷ x)) (d ∷ y)) ≡ lines (append b (c ∷ (x ++ d ∷ y))))
      × (partial (append (append b (c ∷ x)) (d ∷ y)) ≡ partial (append b (c ∷ (x ++ d ∷ y))))
      × ((append (append b (c ∷ x)) (d ∷ y)).base_seq ≡ (append b (c ∷ (x ++ d ∷ y))).base_seq)
append-append b c x d y v =
    let first = append-Gains b c x v in
    let second = append-Gains (append b (c ∷ x)) d y first.valid in
    let once = append-Gains b c (x ++ d ∷ y) v in
    let s = partial b ++ c ∷ x in
    let text : s ++ d ∷ y ≡ partial b ++ c ∷ (x ++ d ∷ y) =
      append_assoc (partial b) (c ∷ x) (d ∷ y) in
    let old = lines b ++ whole_lines s in
    let new = whole_lines (remainder s ++ d ∷ y) in
    let both : old ++ new ≡ lines b ++ whole_lines (partial b ++ c ∷ (x ++ d ∷ y)) =
      append_assoc (lines b) (whole_lines s) new
      ∙ ap (λ t. lines b ++ t) (sym (whole_lines-append s (d ∷ y)) ∙ ap whole_lines text) in
    let held : lines (append b (c ∷ x)) ++ whole_lines (partial (append b (c ∷ x)) ++ d ∷ y)
        ≡ newest b.max_lines old ++ new =
      ap₂ (λ ls r. ls ++ whole_lines (r ++ d ∷ y)) first.shown first.unfinished in
    (
      second.shown
          ∙ ap₂ newest first.same_max held
          ∙ newest-newest b.max_lines old new
          ∙ ap (newest b.max_lines) both
          ∙ sym once.shown,
      second.unfinished
          ∙ ap (λ r. remainder (r ++ d ∷ y)) first.unfinished
          ∙ sym (remainder-append s (d ∷ y))
          ∙ ap remainder text
          ∙ sym once.unfinished,
      second.numbered
          ∙ ap₂ (λ q n. q +ℤ pos n) first.numbered (ap₂ (λ ls n. length ls - n) held first.same_max)
          ∙ +ℤ-pos b.base_seq _ _
          ∙ ap (λ n. b.base_seq +ℤ pos n)
              (dropped_twice b.max_lines old new ∙ ap (λ ls. length ls - b.max_lines) both)
          ∙ sym once.numbered,
    )

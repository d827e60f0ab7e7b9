-- ===== src/Logs/Buffer/Spec.antt =====
-- What reading a text line by line means, with no offsets: the lines that a text completes, and
-- the rest behind its last line break.
use openshift_console.Prelude.{
  ℕ, zero, suc, ◌-◌, ◌≤◌, ◌≡◌, List, [], ◌∷◌, map, length, take, drop, ◌==◌, if◌then◌else◌, arith,
  refl, ap, Bool-cases, inl, inr,
}
use openshift_console.Prelude.Text.{Text, split, front_parts, last_part, slice}
use openshift_console.Logs.Buffer.{newline, carriage_return, trim_end}

-- A text without a carriage return at its end.
unfoldable pub trim_cr : Text → Text
trim_cr [] = []
trim_cr (c ∷ []) = if c == carriage_return then [] else c ∷ []
trim_cr (c ∷ d ∷ s) = c ∷ trim_cr (d ∷ s)

unfoldable pub whole_lines : Text → List Text
whole_lines s = map trim_cr (front_parts (split newline s))

unfoldable pub remainder : Text → Text
remainder s = last_part (split newline s)

-- The newest `n` of a list.
unfoldable pub newest {ℓ} : {A : Type ℓ} → ℕ → List A → List A
newest n xs = drop (length xs - n) xs

sub_one : (n : ℕ) → suc n - 1 ≡ n
sub_one n = omega arith

trim_end_shift :
    (c : ℕ) (s : Text) (start end : ℕ)
    → trim_end (c ∷ s) (suc start) (suc end) ≡ suc (trim_end s start end)
unfolding trim_end
trim_end_shift c s start zero = ground arith
trim_end_shift c s start (suc end) = rw (sub_one end, sub_one (suc end)) (ground arith)

sub_zero : (n : ℕ) → n - 0 ≡ n
sub_zero n = omega arith

suc-sub-suc : (m n : ℕ) → suc m - suc n ≡ m - n
suc-sub-suc m n = omega arith

trim_end_zero :
    (c : ℕ) (s : Text) (end : ℕ) → trim_end (c ∷ s) 0 (suc (suc end)) ≡ suc (trim_end s 0 (suc end))
unfolding trim_end
trim_end_zero c s end = rw (sub_one end, sub_one (suc end)) (ground arith)

take-trim_end :
    (s : Text) (end : ℕ) → end ≤ length s → take (trim_end s 0 end) s ≡ trim_cr (take end s)
unfolding trim_cr
take-trim_end s zero h = unfold trim_end in refl
take-trim_end [] (suc end) h = absurd (omega arith)
take-trim_end (c ∷ s) (suc zero) h =
    unfold trim_end in
    elim (Bool-cases (c == carriage_return)) [ inl cr ↦ rw cr | inr other ↦ rw other ]
take-trim_end (c ∷ []) (suc (suc end)) h = absurd (omega arith)
take-trim_end (c ∷ d ∷ s) (suc (suc end)) h =
    rw (trim_end_zero c (d ∷ s) end)
      (ap (λ (t : Text). c ∷ t) (take-trim_end (d ∷ s) (suc end) (omega arith)))

-- The cut extent holds the line without its carriage return.
pub slice-trim_end :
    (s : Text) (start end : ℕ)
    → start ≤ end
    → end ≤ length s
    → slice s start (trim_end s start end) ≡ trim_cr (slice s start end)
slice-trim_end s zero end h k =
    rw (sub_zero (trim_end s 0 end), sub_zero end) (take-trim_end s end k)
slice-trim_end s (suc start) zero h k = absurd (omega arith)
slice-trim_end [] (suc start) (suc end) h k = absurd (omega arith)
slice-trim_end (c ∷ s) (suc start) (suc end) h k =
    rw
      (
        trim_end_shift c s start end,
        suc-sub-suc (trim_end s start end) start,
        suc-sub-suc end start,
      )
      (slice-trim_end s start end (omega arith) (omega arith))

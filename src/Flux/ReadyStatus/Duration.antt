-- ===== src/Flux/ReadyStatus/Duration.antt =====
-- A duration that is written as Go writes it.
use openshift_console.Prelude.{
  ◌∙◌, All, ℕ, zero, suc, ◌≤◌, ◌≡◌, true, false, List, [], ◌∷◌, ◌++◌, Option, none, some, leb, ◌==◌,
  if◌then◌else◌, length, length-append, refl, ap, arith,
}
use openshift_console.Prelude.Text.{Text}
use openshift_console.Flux.ReadyStatus.{
  Match, Clock, is_digit, digits_of, behind_digits, unit_at, fraction_match, match_at, add_match,
  sum_matches, parse_go_duration,
}

-- Hours, minutes and seconds.
pub data TimeUnit : Type 0 where
  hours minutes seconds : TimeUnit

abbrev pub letter_of : TimeUnit → ℕ
letter_of hours = 104
letter_of minutes = 109
letter_of seconds = 115

abbrev pub factor_of : TimeUnit → ℕ
factor_of hours = 3600000
factor_of minutes = 60000
factor_of seconds = 1000

abbrev pub AllDigits : Text → Type 0
AllDigits [] = Unit
AllDigits (c ∷ s) = (is_digit c ≡ true) × AllDigits s

-- A whole number and its unit.
pub record Part : Type 0 where
  pub first : ℕ
  pub more : Text
  pub unit : TimeUnit

abbrev pub number_of : Part → Text
number_of p = p.first ∷ p.more

abbrev pub IsPart : Part → Type 0
IsPart p = AllDigits (number_of p)

abbrev pub written : List Part → Text
written [] = []
written (p ∷ ps) = number_of p ++ letter_of p.unit ∷ written ps

letter-is_digit : (u : TimeUnit) → is_digit (letter_of u) ≡ false
letter-is_digit hours = refl
letter-is_digit minutes = refl
letter-is_digit seconds = refl

unit_at-letter : (u : TimeUnit) (s : Text) → unit_at (letter_of u ∷ s) ≡ some (factor_of u, s)
unfolding unit_at
unit_at-letter hours s = refl
unit_at-letter minutes s = refl
unit_at-letter seconds s = refl

letter_not_point : (u : TimeUnit) → (letter_of u == 46) ≡ false
letter_not_point hours = refl
letter_not_point minutes = refl
letter_not_point seconds = refl

digits_lem :
    (d : Text) (c : ℕ) (s : Text)
    → AllDigits d
    → is_digit c ≡ false
    → (digits_of (d ++ c ∷ s) ≡ d) × (behind_digits (d ++ c ∷ s) ≡ c ∷ s)
unfolding digits_of behind_digits
digits_lem [] c s h other = rw other (refl, refl)
digits_lem (x ∷ d) c s (digit, h) other =
    let (front, back) = digits_lem d c s h other in
    rw digit (ap {A = Text} {B = Text} (λ t. x ∷ t) front, back)

fraction_match-letter :
    (d : Text) (u : TimeUnit) (s : Text) → fraction_match d (letter_of u ∷ s) ≡ none
unfolding fraction_match
fraction_match-letter d u s = rw (letter_not_point u) refl

one_of_many : {A : Type 0} (n : ℕ) (x : A) → (if leb 1 (suc n) then some x else none) ≡ some x
one_of_many n x = ground arith

match_at-part :
    (p : Part) (s : Text)
    → IsPart p
    → match_at (number_of p ++ letter_of p.unit ∷ s)
      ≡ some (record { value = number_of p; factor = factor_of p.unit; rest = s })
unfolding match_at
match_at-part p s h =
    let (front, back) = digits_lem (number_of p) (letter_of p.unit) s h (letter-is_digit p.unit) in
    rw
      (match_at, front, back, fraction_match-letter (number_of p) p.unit s, unit_at-letter p.unit s)
      (one_of_many (length p.more) _)

-- The match that a part leads to.
abbrev match_of : Part → List Part → Match
match_of p ps = record { value = number_of p; factor = factor_of p.unit; rest = written ps }

module _ {N : Type 0} (clock : Clock N) where
  -- A part in milliseconds.
  abbrev pub worth : Part → N
  worth p = clock.times (clock.parse_float (number_of p)) (factor_of p.unit)

  -- The parts added to what there is, from the left.
  abbrev pub sum_from : N → List Part → N
  sum_from n [] = n
  sum_from n (p ∷ ps) = sum_from (clock.plus n (worth p)) ps

  -- The sum of the parts from zero on, if there are any.
  abbrev pub total_of : List Part → Option N
  total_of [] = none
  total_of (p ∷ ps) = some (sum_from (clock.of_nat 0) (p ∷ ps))

  abbrev with_parts : Option N → List Part → Option N
  with_parts none ps = total_of ps
  with_parts (some n) ps = some (sum_from n ps)

  with_parts-nil : (total : Option N) → total ≡ with_parts total []
  with_parts-nil none = refl
  with_parts-nil (some n) = refl

  with_parts-cons :
      (total : Option N) (p : Part) (ps : List Part)
      → with_parts (add_match clock total (match_of p ps)) ps ≡ with_parts total (p ∷ ps)
  with_parts-cons none p ps = refl
  with_parts-cons (some n) p ps = refl

  sum_matches-written :
      (ps : List Part) (fuel : ℕ) (total : Option N)
      → All IsPart ps
      → length (written ps) ≤ fuel
      → sum_matches clock fuel (written ps) total ≡ with_parts total ps
  unfolding sum_matches
  sum_matches-written [] zero total h enough = with_parts-nil total
  sum_matches-written [] (suc fuel) total h enough = with_parts-nil total
  sum_matches-written (p ∷ ps) zero total h enough = absurd (omega arith)
  sum_matches-written (p ∷ ps) (suc fuel) total (part, h) enough =
      let rest =
        sum_matches-written ps fuel (add_match clock total (match_of p ps)) h
          (omega (arith, length-append p.more (letter_of p.unit ∷ written ps))) in
      rw (sum_matches, match_at-part p (written ps) part) (rest ∙ with_parts-cons total p ps)

  -- A duration that is written as whole numbers of hours, minutes and seconds, in any order and
  -- number, is the sum of the parts in milliseconds, added from zero on, from the left; without parts
  -- it is none.
  pub parse_go_duration-written :
      (ps : List Part) → All IsPart ps → parse_go_duration clock (some (written ps)) ≡ total_of ps
  unfolding parse_go_duration
  parse_go_duration-written ps h = sum_matches-written ps (length (written ps)) none h (omega arith)

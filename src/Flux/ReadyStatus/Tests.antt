-- ===== src/Flux/ReadyStatus/Tests.antt =====
-- The property at a concrete duration.
use openshift_console.Prelude.{ℕ, ◌+◌, ◌*◌, ◌≡◌, List, [], ◌∷◌, none, some, ltb, refl}
use openshift_console.Prelude.Text.{codes}
use openshift_console.Prelude.Text.Digits.{digits_value}
use openshift_console.Flux.ReadyStatus.{
  Clock, parse_go_duration, sum_matches, match_at, digits_of, behind_digits, fraction_match,
  unit_at,
}
use openshift_console.Flux.ReadyStatus.Duration.{
  Part, hours, minutes, written, total_of, parse_go_duration-written,
}

-- Whole numbers, at a moment that is 1000000 after the start of the count.
abbrev clock : Clock ℕ
clock = record {
  parse_float = λ t. digits_value 0 t;
  times = λ n k. n * k;
  plus = λ m n. m + n;
  of_nat = λ n. n;
  date_of = λ t. none;
  is_younger = λ time n. ltb 1000000 (time + n);
}

-- "1h30m".
abbrev parts : List Part
parts =
    record { first = 49; more = []; unit = hours }
    ∷ record { first = 51; more = 48 ∷ []; unit = minutes }
    ∷ []

parse_go_duration-written_example :
    parse_go_duration clock (some (written parts)) ≡ total_of clock parts
parse_go_duration-written_example =
    parse_go_duration-written clock parts ((refl, tt), ((refl, (refl, tt)), tt))

-- The unit of milliseconds is read as minutes.
milliseconds_run : parse_go_duration clock (some (codes "500ms")) ≡ some 30000000
unfolding parse_go_duration sum_matches match_at digits_of behind_digits fraction_match unit_at
    digits_value
milliseconds_run = refl

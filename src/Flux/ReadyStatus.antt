-- ===== src/Flux/ReadyStatus.antt =====
-- plugins/flux/src/utils/readyStatus.ts, and the conditions of plugins/flux/src/utils/status.ts. What
-- the numbers and dates of the runtime give is the record Clock.
pub mod Duration
mod Tests
use openshift_console.Prelude.{
  ℕ, zero, suc, ◌*◌, ◌&&◌, ◌||◌, Bool, true, false, List, [], ◌∷◌, ◌++◌, Option, none, some, leb,
  ◌==◌, if◌then◌else◌, length,
}
use openshift_console.Prelude.Text.{Text, same, codes}

pub record Condition : Type 0 where
  pub type : Text
  pub status : Text
  pub reason : Option Text
  pub message : Option Text
  pub last_transition_time : Option Text

-- `conditions?.find((c) => c.type === type)`.
unfoldable pub get_condition : List Condition → Text → Option Condition
get_condition [] type = none
get_condition (c ∷ cs) type =
    let rest = get_condition cs type in if same c.type type then some c else rest

pub data ReadyStatusKind : Type 0 where
  success rollback_recent failed_nonretryable failed_retryable artifact_failed_recent
        artifact_failed_stale dependency_not_ready :
      ReadyStatusKind

pub record ReadyStatus : Type 0 where
  pub kind : ReadyStatusKind
  pub label : Text
  pub message : Option Text

-- `parseFloat` of digits, products and sums of numbers, `Date.parse` (none for NaN), and whether
-- `now - time` is below a number.
pub record Clock (N : Type 0) : Type 0 where
  pub parse_float : Text → N
  pub times : N → ℕ → N
  pub plus : N → N → N
  pub of_nat : ℕ → N
  pub date_of : Text → Option ℕ
  pub is_younger : ℕ → N → Bool

abbrev pub is_digit : ℕ → Bool
is_digit c = leb 48 c && leb c 57

-- `\d*`, and what is behind it.
unfoldable pub digits_of : Text → Text
digits_of [] = []
digits_of (c ∷ s) = let rest = digits_of s in if is_digit c then c ∷ rest else []

unfoldable pub behind_digits : Text → Text
behind_digits [] = []
behind_digits (c ∷ s) = let rest = behind_digits s in if is_digit c then rest else c ∷ s

-- `(h|m|s|ms)`, whose last choice `m` comes before: the factor and what is behind the unit.
unfoldable pub unit_at : Text → Option (ℕ × Text)
unit_at [] = none
unit_at (c ∷ s) =
    if c == 104
    then some (3600000, s)
    else if c == 109
    then some (60000, s)
    else if c == 115
    then some (1000, s)
    else none

-- A match: the number's text, the factor, and what is behind the match.
pub record Match : Type 0 where
  pub value : Text
  pub factor : ℕ
  pub rest : Text

abbrev pub matched : Text → Option (ℕ × Text) → Option Match
matched value none = none
matched value (some (factor, rest)) = some (record { value = value; factor = factor; rest = rest })

abbrev pub or_match : Option Match → Option Match → Option Match
or_match none m = m
or_match (some m) other = some m

-- `(\d+(?:\.\d+)?)(h|m|s|ms)` at the start of a text: with a fraction if that leads to a match.
unfoldable pub fraction_match : Text → Text → Option Match
fraction_match whole [] = none
fraction_match whole (c ∷ s) =
    let digits = digits_of s in
    if (c == 46) && leb 1 (length digits)
    then matched (whole ++ c ∷ digits) (unit_at (behind_digits s))
    else none

unfoldable pub match_at : Text → Option Match
match_at s =
    let digits = digits_of s in
    let behind = behind_digits s in
    if leb 1 (length digits)
    then or_match (fraction_match digits behind) (matched digits (unit_at behind))
    else none

module _ {N : Type 0} (clock : Clock N) where
  abbrev pub add_match : Option N → Match → Option N
  add_match none m =
      some (clock.plus (clock.of_nat 0) (clock.times (clock.parse_float m.value) m.factor))
  add_match (some n) m = some (clock.plus n (clock.times (clock.parse_float m.value) m.factor))

  -- The loop over the matches, with the total once something has matched. Each round goes on by a
  -- character at least.
  unfoldable pub sum_matches : ℕ → Text → Option N → Option N
  sum_matches zero s total = total
  sum_matches (suc fuel) [] total = total
  sum_matches (suc fuel) (c ∷ s) total = elim (match_at (c ∷ s)) [
    | some m ↦ sum_matches fuel m.rest (add_match total m)
    | none ↦ sum_matches fuel s total
  ]

  -- A text that is absent or empty is no duration; the latter matches nothing.
  unfoldable pub parse_go_duration : Option Text → Option N
  parse_go_duration none = none
  parse_go_duration (some s) = sum_matches (length s) s none

  abbrev pub interval_of : Option N → N
  interval_of none = clock.of_nat 300000
  interval_of (some n) = n

  -- `Date.parse` of a time that is there and not empty.
  abbrev pub transition_of : Option Text → Option (Option ℕ)
  transition_of none = none
  transition_of (some []) = none
  transition_of (some (c ∷ s)) = some (clock.date_of (c ∷ s))

  -- `now - transitionMs < n`, which does not hold of NaN; `undefined` for a time that is missing.
  abbrev pub is_recent : Bool → Option (Option ℕ) → N → Bool
  is_recent undefined none n = undefined
  is_recent undefined (some none) n = false
  is_recent undefined (some (some time)) n = clock.is_younger time n

  abbrev pub reason_is : Condition → Text → Bool
  reason_is c reason = elim c.reason [ none ↦ false | some r ↦ same r reason ]

  abbrev pub is_true : Option Condition → Bool
  is_true none = false
  is_true (some c) = same c.status (codes "True")

  abbrev pub label_of : Condition → Text
  label_of c =
      let plain = if same c.status (codes "True") then codes "Ready" else codes "NotReady" in
      elim c.reason [ none ↦ plain | some r ↦ if same r [] then plain else r ]

  abbrev pub day : N
  day = clock.of_nat 86400000

  unfoldable pub kind_of : Condition → List Condition → Option Text → ReadyStatusKind
  kind_of ready conditions interval =
      let time = transition_of ready.last_transition_time in
      let threshold = clock.times (interval_of (parse_go_duration interval)) 2 in
      if same ready.status (codes "True")
      then (if reason_is ready (codes "RollbackSucceeded") && is_recent false time day
          then rollback_recent
          else success)
      else if reason_is ready (codes "ArtifactFailed")
      then (if is_recent true time threshold then artifact_failed_recent else artifact_failed_stale)
      else if reason_is ready (codes "DependencyNotReady")
      then dependency_not_ready
      else if is_true (get_condition conditions (codes "Stalled"))
      then failed_nonretryable
      else failed_retryable

  -- A resource as its conditions and its `spec.interval`, where that is a string.
  unfoldable pub get_ready_status : List Condition → Option Text → Option ReadyStatus
  get_ready_status conditions interval = elim (get_condition conditions (codes "Ready")) [
    | none ↦ none
    | some ready ↦ some (record {
      kind = kind_of ready conditions interval;
      label = label_of ready;
      message = ready.message;
    })
  ]

-- ===== src/Logs/Parse/Columns.antt =====
-- The columns of an annotation, over those of the format.
use openshift_console.Prelude.{
  ℕ, zero, suc, Bool, true, false, ◌&&◌, ◌||◌, List, [], ◌∷◌, ◌++◌, Option, none, some, ◌==◌, leb,
  if◌then◌else◌,
}
use openshift_console.Prelude.Text.{Text, codes, same, split, join}
use openshift_console.Prelude.Text.Trim.{trim}
use openshift_console.Prelude.Json.{null, bool, number, string, array, object, Fields, end, nil}
use openshift_console.Logs.Parse.Entry.{
  Runtime, LogEntry, LogLevel, ColumnSpec, ColumnType, rfc3339, rfc3339nano, epoch_ms, epoch,
  log_level, abbreviate, number_column, string_column,
}
use openshift_console.Logs.Parse.Fields.{
  Found, own, method, object_prototype, array_prototype, pick, text_of, finite_number,
  normalize_level,
}

abbrev pub is_digit : ℕ → Bool
is_digit c = leb b'0' c && leb c b'9'

-- `\d{n}`, with the text behind it.
unfoldable pub digits : ℕ → Text → Option Text
digits zero s = some s
digits (suc n) [] = none
digits (suc n) (c ∷ s) = if is_digit c then digits n s else none

-- One character of some.
unfoldable pub one_of : List ℕ → Text → Option Text
one_of [] s = none
one_of (c ∷ cs) [] = none
one_of (c ∷ cs) (d ∷ s) = if c == d then some s else one_of cs (d ∷ s)

abbrev pub then_read : Option Text → (Text → Option Text) → Option Text
then_read none f = none
then_read (some s) f = f s

-- `\d{2}`, one of some characters, and what follows.
unfoldable pub pair_then : List ℕ → Text → Option Text
pair_then cs s = then_read (digits 2 s) (one_of cs)

unfoldable pub drop_digits : Text → Text
drop_digits [] = []
drop_digits (c ∷ s) = if is_digit c then drop_digits s else c ∷ s

-- `(\.\d+)?`
unfoldable pub drop_fraction : Text → Text
drop_fraction [] = []
drop_fraction (c ∷ s) =
    if c == b'.' then elim (digits 1 s) [ none ↦ c ∷ s | some rest ↦ drop_digits rest ] else c ∷ s

unfoldable pub at_end : Option Text → Bool
at_end none = false
at_end (some s) = same s []

-- `([Zz]|[+-]\d{2}:\d{2})$`
unfoldable pub is_zone : Text → Bool
is_zone s =
    at_end (one_of (b'Z' ∷ b'z' ∷ []) s)
    || at_end
        (then_read (then_read (one_of (b'+' ∷ b'-' ∷ []) s) (pair_then (b':' ∷ []))) (digits 2))

unfoldable pub is_rfc3339 : Text → Bool
is_rfc3339 s =
    let year = then_read (digits 4 s) (one_of (b'-' ∷ [])) in
    let day =
      then_read (then_read year (pair_then (b'-' ∷ []))) (pair_then (b'T' ∷ b't' ∷ 32 ∷ [])) in
    let time =
      then_read (then_read (then_read day (pair_then (b':' ∷ []))) (pair_then (b':' ∷ [])))
        (digits 2) in
    elim time [ none ↦ false | some rest ↦ is_zone (drop_fraction rest) ]

-- The first character, which takes two units where the first is the front half of a pair.
unfoldable pub first_character : Text → Text
first_character [] = []
first_character (c ∷ []) = c ∷ []
first_character (c ∷ d ∷ s) =
    if (leb 55296 c && leb c 56319) && (leb 56320 d && leb d 57343) then c ∷ d ∷ [] else c ∷ []

-- All segments but the last are cut.
unfoldable pub cut_segments : List Text → List Text
cut_segments [] = []
cut_segments (s ∷ []) = s ∷ []
cut_segments (s ∷ t ∷ ss) = first_character s ∷ cut_segments (t ∷ ss)

unfoldable pub abbreviate_logger : Text → Text
abbreviate_logger name = join b'.' (cut_segments (split b'.' name))

-- What the columns have given so far.
pub record Applied : Type 0 where
  pub timestamp : Option Text
  pub time_set : Bool
  pub level : Option Text
  pub level_class : Option LogLevel
  pub level_set : Bool
  pub logger_short : Option Text
  pub logger_set : Bool
  pub extras : List (Option Text)

module _ {N : Type 0} (rt : Runtime N) where
  unfoldable pub as_number : Option (Found N) → Option N
  as_number none = none
  as_number (some method) = none
  as_number (some object_prototype) = none
  as_number (some array_prototype) = none
  as_number (some (own v)) = elim v [
    | number n ↦ (if rt.is_finite n then some n else none)
    | string s ↦ (if same (trim s) [] then none else finite_number rt s)
    | _ ↦ none
  ]

  unfoldable pub date_text : Option (Found N) → Option Text
  date_text none = none
  date_text (some method) = none
  date_text (some object_prototype) = none
  date_text (some array_prototype) = none
  date_text (some (own v)) = elim v [
    | string s ↦ (if is_rfc3339 s && rt.is_date s then some s else none)
    | _ ↦ none
  ]

  abbrev pub date_of : Option N → (N → N) → Option Text
  date_of none scale = none
  date_of (some n) scale = rt.iso_date (scale n)

  unfoldable pub as_timestamp : Option (Found N) → ColumnType → Option Text
  as_timestamp value epoch = date_of (as_number value) rt.thousandfold
  as_timestamp value epoch_ms = date_of (as_number value) (λ n. n)
  as_timestamp value type = date_text value

  -- `none` for undefined, which is what `JSON.stringify` makes of a function.
  unfoldable pub as_text : Option (Found N) → Option Text
  as_text none = some []
  as_text (some method) = none
  as_text (some object_prototype) = some (rt.stringify (object end))
  as_text (some array_prototype) = some (rt.stringify (array nil))
  as_text (some (own v)) = some (elim v [
    | string s ↦ s
    | number n ↦ rt.show n
    | bool b ↦ (if b then codes "true" else codes "false")
    | null ↦ []
    | structure ↦ rt.stringify structure
  ])

  unfoldable pub shown_number : Option N → Text
  shown_number none = []
  shown_number (some n) = rt.show n

  unfoldable pub set_time : Applied → Option Text → Applied
  set_time a none = a
  set_time a (some t) = if a.time_set then a else record a { timestamp = some t; time_set = true }

  unfoldable pub set_level : Applied → Option Text → Applied
  set_level a none = a
  set_level a (some t) =
      if a.level_set
      then a
      else record a { level = some t; level_class = normalize_level rt (some t); level_set = true }

  unfoldable pub set_logger : Applied → Option Text → Applied
  set_logger a none = a
  set_logger a (some t) =
      if a.logger_set
      then a
      else record a { logger_short = some (abbreviate_logger t); logger_set = true }

  -- One column, of a type, with the value that the record has for it.
  unfoldable pub apply_column : Applied → ColumnType → Option (Found N) → Applied
  apply_column a rfc3339 value = set_time a (as_timestamp value rfc3339)
  apply_column a rfc3339nano value = set_time a (as_timestamp value rfc3339nano)
  apply_column a epoch_ms value = set_time a (as_timestamp value epoch_ms)
  apply_column a epoch value = set_time a (as_timestamp value epoch)
  apply_column a log_level value = set_level a (text_of rt value)
  apply_column a abbreviate value = set_logger a (text_of rt value)
  apply_column a number_column value = record a {
    extras = a.extras ++ some (shown_number (as_number value)) ∷ [];
  }
  apply_column a string_column value = record a { extras = a.extras ++ as_text value ∷ [] }

  unfoldable pub apply_each : Applied → Fields N → List ColumnSpec → Applied
  apply_each a fs [] = a
  apply_each a fs (c ∷ cs) = apply_each (apply_column a c.type (pick rt fs c.key)) fs cs

  abbrev pub unapplied : LogEntry N → Applied
  unapplied entry = record {
    timestamp = entry.timestamp;
    time_set = false;
    level = entry.level;
    level_class = entry.level_class;
    level_set = false;
    logger_short = entry.logger_short;
    logger_set = false;
    extras = [];
  }

  unfoldable pub apply_columns : LogEntry N → Fields N → List ColumnSpec → LogEntry N
  apply_columns entry fs columns =
      let a = apply_each (unapplied entry) fs columns in
      record entry {
        timestamp = a.timestamp;
        level = a.level;
        level_class = a.level_class;
        logger_short = a.logger_short;
        extras = a.extras;
      }

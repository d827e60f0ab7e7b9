-- ===== src/Logs/Hints.antt =====
-- plugins/logging/src/logs/format-annotation.ts: the annotation that says how a container's log is
-- shown. `to_lower` is `toLowerCase`.
pub mod Grouping
pub mod Entries
mod Tests
use openshift_console.Prelude.{
  ℕ, suc, ◌&&◌, ◌||◌, not, Bool, true, false, List, [], ◌∷◌, ◌++◌, Option, none, some, ltb, drop,
  if◌then◌else◌,
}
use openshift_console.Prelude.Text.{Text, codes, same, split, index_of, slice}
use openshift_console.Prelude.Text.Trim.{trim}
use openshift_console.Prelude.Text.Keys.{lookup}
use openshift_console.Logs.Parse.Entry.{
  ColumnSpec, ColumnType, rfc3339, rfc3339nano, epoch_ms, epoch, log_level, abbreviate,
  number_column, string_column, is_log_format, is_column_type,
}

pub record FormatHint : Type 0 where
  pub format : Text
  pub columns : List ColumnSpec

-- `hints` and `current`: each hint is put in the map where it is made, so the hints stand here newest
-- first, each with its name, and `current`, which is null or the hint made last, is a flag.
pub record Reader : Type 0 where
  pub hints : List (Text × FormatHint)
  pub current : Bool

-- The type that a text is, where `is_column_type` holds of it.
abbrev pub type_names : List (Text × ColumnType)
type_names =
    (codes "date/rfc3339", rfc3339)
    ∷ (codes "date/rfc3339nano", rfc3339nano)
    ∷ (codes "date/epoch-ms", epoch_ms)
    ∷ (codes "epoch", epoch)
    ∷ (codes "log-level", log_level)
    ∷ (codes "abbreviate", abbreviate)
    ∷ (codes "number", number_column)
    ∷ (codes "string", string_column)
    ∷ []

unfoldable pub ends_current : Reader → Reader
ends_current r = record r { current = false }

-- `current.columns.push`, of the hint made last.
unfoldable pub push_column : ColumnSpec → List (Text × FormatHint) → List (Text × FormatHint)
push_column column [] = []
push_column column ((name, hint) ∷ hints) =
    (name, record hint { columns = hint.columns ++ column ∷ [] }) ∷ hints

-- A column where the key is not empty and the type is one, for a current hint.
unfoldable pub push_typed : Text → Option ColumnType → Reader → Reader
push_typed key none r = ends_current r
push_typed key (some type) r = record r {
  hints = push_column (record { key = key; type = type }) r.hints;
}

-- The first column, on the container's entry: `first.indexOf('=')` and what follows.
unfoldable pub read_first : Text → Option ℕ → Reader → Reader
read_first first none r = ends_current r
read_first first (some at) r =
    let pushed =
      push_typed (trim (slice first 0 at)) (lookup type_names (trim (drop (suc at) first))) r in
    if ltb 0 at then pushed else ends_current r

abbrev pub before : Option ℕ → Text → Text
before none value = value
before (some at) value = slice value 0 at

abbrev pub is_found : Option ℕ → Bool
is_found none = false
is_found (some at) = true

-- `current = { format: head, columns: [] }; hints.set(name, current)`.
unfoldable pub make_hint : Text → Text → Reader → Reader
make_hint name head r = record {
  hints = (name, record { format = head; columns = [] }) ∷ r.hints;
  current = true;
}

unfoldable pub read_columns : Text → Option ℕ → Reader → Reader
read_columns value none r = r
read_columns value (some colon) r =
    let first = drop (suc colon) value in read_first first (index_of first 61 0) r

-- A container's own entry.
unfoldable pub read_entry : Text → Text → Text → Option ℕ → Reader → Reader
read_entry name head value colon r =
    if same name [] || not (is_log_format head)
    then ends_current r
    else read_columns value colon (make_hint name head r)

unfoldable pub read_column : Text → Text → Reader → Reader
read_column name value r =
    let pushed = push_typed name (lookup type_names value) r in
    if r.current && not (same name []) then pushed else ends_current r

module _ (to_lower : Text → Text) where
  abbrev pub head_of : Option ℕ → Text → Text
  head_of colon value = to_lower (trim (before colon value))

  unfoldable pub read_pair : Text → Text → Reader → Reader
  read_pair name value r =
      let colon = index_of value 58 0 in
      let head = head_of colon value in
      if is_found colon || is_log_format head
      then read_entry name head value colon r
      else read_column name value r

  -- A token without `=`.
  unfoldable pub read_blank : Text → Reader → Reader
  read_blank token r = if same (trim token) [] then r else ends_current r

  unfoldable pub read_at : Option ℕ → Text → Reader → Reader
  read_at none token r = read_blank token r
  read_at (some eq) token r = read_pair (trim (slice token 0 eq)) (trim (drop (suc eq) token)) r

  unfoldable pub read_token : Text → Reader → Reader
  read_token token r = read_at (index_of token 61 0) token r

  unfoldable pub read_tokens : List Text → Reader → Reader
  read_tokens [] r = r
  read_tokens (token ∷ tokens) r = read_tokens tokens (read_token token r)

  unfoldable pub parse_hints : Text → List (Text × FormatHint)
  parse_hints annotation =
      (read_tokens (split 44 annotation) (record { hints = []; current = false })).hints

  -- An annotation that is absent or empty says nothing.
  unfoldable pub annotated_format : Option Text → Text → Option FormatHint
  annotated_format none container = none
  annotated_format (some []) container = none
  annotated_format (some (c ∷ s)) container = lookup (parse_hints (c ∷ s)) container

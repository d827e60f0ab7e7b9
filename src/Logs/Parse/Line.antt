-- ===== src/Logs/Parse/Line.antt =====
-- A whole line: its entry without escape sequences; and the format of a log.
use openshift_console.Prelude.{
  Bool, true, false, ◌&&◌, ◌||◌, List, [], ◌∷◌, ◌++◌, Option, none, some, ◌==◌, if◌then◌else◌,
}
use openshift_console.Prelude.Text.{Text, codes}
use openshift_console.Prelude.Json.{Fields}
use openshift_console.Logs.Ansi.Style.{AnsiSpan}
use openshift_console.Logs.Ansi.Scan.{has_ansi}
use openshift_console.Logs.Ansi.Spans.{parse_ansi, strip_ansi}
use openshift_console.Logs.Parse.Entry.{
  Runtime, LogFormat, plain, json, ecs, LogEntry, LogLevel, ColumnSpec,
}
use openshift_console.Logs.Parse.Fields.{pick, normalize_level}
use openshift_console.Logs.Parse.Record.{decode_record, parse_default}
use openshift_console.Logs.Parse.Columns.{apply_columns}

-- The text in front of the first line break, if there is one.
unfoldable pub before_break : Text → Option Text
before_break [] = none
before_break (c ∷ s) =
    let rest : Option Text = elim (before_break s) [
      | none ↦ none
      | some front ↦ some (c ∷ front)
    ] in
    if (c == 13) || (c == 10) then some [] else rest

unfoldable pub first_line : Text → Text
first_line text = elim (before_break text) [ none ↦ text | some front ↦ front ++ codes "..." ]

unfoldable pub has_field : Option Text → Bool
has_field none = false
has_field (some field) = has_ansi field

-- `none` is the TypeError of an undefined text.
unfoldable pub has_extra : List (Option Text) → Option Bool
has_extra [] = some false
has_extra (none ∷ ts) = none
has_extra (some t ∷ ts) = let rest = has_extra ts in if has_ansi t then some true else rest

unfoldable pub is_set {ℓ} : {A : Type ℓ} → Option A → Bool
is_set none = false
is_set (some x) = true

module _ {N : Type 0} (rt : Runtime N) where
  unfoldable pub first_line_spans : Text → List AnsiSpan
  first_line_spans text = elim (before_break text) [
    | none ↦ parse_ansi rt.code_of text
    | some front ↦ parse_ansi rt.code_of front ++ record { text = codes "..."; style = none } ∷ []
  ]

  unfoldable pub stripped : Option Text → Option Text
  stripped none = none
  stripped (some value) = some (strip_ansi rt.code_of value)

  -- `none` is the TypeError of an undefined text.
  unfoldable pub stripped_all : List (Option Text) → Option (List (Option Text))
  stripped_all [] = some []
  stripped_all (none ∷ ts) = none
  stripped_all (some t ∷ ts) = elim (stripped_all ts) [
    | none ↦ none
    | some us ↦ some (some (strip_ansi rt.code_of t) ∷ us)
  ]

  unfoldable pub has_escape : LogEntry N → Option Bool
  has_escape entry =
      if has_ansi entry.message
        || has_field entry.level
        || has_field entry.logger
        || has_field entry.logger_short
        || has_field entry.unit
      then some true
      else has_extra entry.extras

  -- The class of the level without escape sequences; a journal's comes from its number.
  unfoldable pub class_without_ansi : Option Text → Option LogLevel → Option Text → Option LogLevel
  class_without_ansi none old level = normalize_level rt level
  class_without_ansi (some priority) old level = old

  -- The entry, once its extra columns are stripped.
  abbrev pub stripped_entry : LogEntry N → List (Option Text) → LogEntry N
  stripped_entry entry extras =
      let level = stripped entry.level in
      record entry {
        message = strip_ansi rt.code_of entry.message;
        message_spans =
            if has_ansi entry.message then some (first_line_spans entry.message) else none;
        level = level;
        level_class = class_without_ansi entry.priority entry.level_class level;
        logger = stripped entry.logger;
        logger_short = stripped entry.logger_short;
        unit = stripped entry.unit;
        extras = extras;
      }

  -- `none` is a TypeError.
  unfoldable pub without_ansi : LogEntry N → Option (LogEntry N)
  without_ansi entry = elim (has_escape entry) [
    | none ↦ none
    | some escapes ↦
        if escapes
        then elim (stripped_all entry.extras) [
          | none ↦ none
          | some extras ↦ some (stripped_entry entry extras)
        ]
        else some entry
  ]

  unfoldable pub with_columns : LogEntry N → Option (Fields N) → List ColumnSpec → LogEntry N
  with_columns entry none columns = entry
  with_columns entry (some fs) [] = entry
  with_columns entry (some fs) (c ∷ cs) = apply_columns rt entry fs (c ∷ cs)

  unfoldable pub parse_line : Text → LogFormat → List ColumnSpec → Option (LogEntry N)
  parse_line raw format columns =
      let entry = parse_default rt raw format in
      without_ansi (with_columns entry entry.fields columns)

  unfoldable pub is_ecs : Fields N → Bool
  is_ecs fs =
      is_set (pick rt fs (codes "@timestamp"))
      && (is_set (pick rt fs (codes "log.level"))
          || is_set (pick rt fs (codes "log.logger"))
          || is_set (pick rt fs (codes "ecs.version")))

  -- The loop, with whether a record was seen.
  unfoldable pub sniff_from : Bool → List Text → LogFormat
  sniff_from saw_json [] = if saw_json then json else plain
  sniff_from saw_json (line ∷ lines) = elim (decode_record rt line) [
    | none ↦ sniff_from saw_json lines
    | some fs ↦ elim (is_ecs fs) [ true ↦ ecs | false ↦ sniff_from true lines ]
  ]

  unfoldable pub sniff_format : List Text → LogFormat
  sniff_format lines = sniff_from false lines

-- ===== src/Logs/Parse/Plain.antt =====
-- Lines that are shown as plain text.
use openshift_console.Prelude.{
  ◌≡◌, ◌⊎◌, inl, inr, List, [], false, none, some, if◌then◌else◌, refl, Bool-cases,
}
use openshift_console.Prelude.Text.{Text}
use openshift_console.Logs.Ansi.Scan.{has_ansi}
use openshift_console.Logs.Ansi.Spans.{strip_ansi}
use openshift_console.Logs.Parse.Entry.{
  Runtime, LogFormat, plain, json, ecs, journald, LogEntry, ColumnSpec,
}
use openshift_console.Logs.Parse.Fields.{normalize_level}
use openshift_console.Logs.Parse.Record.{decode_record, parse_default, plain_entry}
use openshift_console.Logs.Parse.Line.{
  first_line_spans, stripped, stripped_all, has_field, has_extra, has_escape, class_without_ansi,
  without_ansi, with_columns, parse_line,
}

module _ {N : Type 0} (rt : Runtime N) (raw : Text) where
  -- The line itself in the message column, in its colours, and nothing in the others.
  abbrev pub shown_plain : LogEntry N
  shown_plain = record {
    raw = raw;
    timestamp = none;
    level = none;
    level_class = none;
    logger = none;
    logger_short = none;
    priority = none;
    unit = none;
    message = strip_ansi rt.code_of raw;
    message_spans = if has_ansi raw then some (first_line_spans rt raw) else none;
    stack_trace = none;
    error_type = none;
    error_message = none;
    fields = none;
    extras = [];
    structured = false;
  }

  parse_default-plain :
      (format : LogFormat)
      → (format ≡ plain) ⊎ (decode_record rt raw ≡ none)
      → parse_default rt raw format ≡ plain_entry raw
  unfolding parse_default
  parse_default-plain plain h = refl
  parse_default-plain json (inl w) = cc
  parse_default-plain ecs (inl w) = cc
  parse_default-plain journald (inl w) = cc
  parse_default-plain json (inr e) = rw (parse_default, e) refl
  parse_default-plain ecs (inr e) = rw (parse_default, e) refl
  parse_default-plain journald (inr e) = rw (parse_default, e) refl

  has_escape-plain : has_escape rt (plain_entry raw) ≡ some (has_ansi raw)
  unfolding has_escape plain_entry has_field has_extra
  has_escape-plain = elim (Bool-cases (has_ansi raw)) [
    | inl e ↦ rw (has_escape, e) refl
    | inr e ↦ rw (has_escape, e) refl
  ]

  without_ansi-plain : without_ansi rt (plain_entry raw) ≡ some shown_plain
  unfolding without_ansi plain_entry stripped stripped_all class_without_ansi normalize_level
      strip_ansi
  without_ansi-plain = elim (Bool-cases (has_ansi raw)) [
    | inl e ↦ rw (without_ansi, has_escape-plain, e) refl
    | inr e ↦ rw (without_ansi, has_escape-plain, e) refl
  ]

  -- A line that is asked for as plain text, or that is no JSON object, is shown as itself whatever
  -- the format and the columns: the whole line is the message, in its colours and without the
  -- escape sequences, and all other columns are empty.
  pub parse_line-plain :
      (format : LogFormat) (columns : List ColumnSpec)
      → (format ≡ plain) ⊎ (decode_record rt raw ≡ none)
      → parse_line rt raw format columns ≡ some shown_plain
  unfolding parse_line
  parse_line-plain format columns h =
      rw (parse_line, parse_default-plain format h)
        (unfold with_columns plain_entry in without_ansi-plain)

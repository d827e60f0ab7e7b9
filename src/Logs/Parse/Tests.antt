-- ===== src/Logs/Parse/Tests.antt =====
-- Concrete lines.
use openshift_console.Prelude.{
  ℕ, ◌≡◌, inl, inr, Bool, true, false, List, [], ◌∷◌, ◌++◌, Option, none, some, leb, ◌==◌,
  if◌then◌else◌, refl, map,
}
use openshift_console.Prelude.Text.{Text, codes, same, split}
use openshift_console.Prelude.Text.Trim.{trim, trim_start, trim_end, is_space}
use openshift_console.Prelude.Json.{Fields, string, number, object, field, end}
use openshift_console.Logs.Ansi.Scan.{esc}
use openshift_console.Logs.Parse.Entry.{
  Runtime, LogEntry, ColumnSpec, plain, json, ecs, epoch, rfc3339, log_level, string_column,
  extra_columns,
}
use openshift_console.Logs.Parse.Record.{parse_default, plain_entry, decode_record, object_of}
use openshift_console.Logs.Parse.Columns.{
  apply_columns, is_rfc3339, digits, one_of, pair_then, drop_digits, drop_fraction, at_end, is_zone,
  abbreviate_logger, cut_segments, first_character,
}
use openshift_console.Logs.Parse.Line.{parse_line, sniff_format}
use openshift_console.Logs.Parse.Plain.{shown_plain, parse_line-plain}
use openshift_console.Logs.Parse.Undefined.{names_method}
use openshift_console.Logs.Parse.Clean.{IsShown, parse_line-IsShown}
use openshift_console.Logs.Parse.Kept.{
  first_of, first_in, time_in, level_in, logger_in, class_in, logger_of, extras_in,
}
use openshift_console.Logs.Parse.Override.{apply_columns-first_in}
use openshift_console.Logs.Parse.Sniff.{any, is_ecs_line, is_record, sniff_format-any}

abbrev record_text : Text
record_text = codes "{..}"

abbrev record_fields : Fields ℕ
record_fields = field (codes "@timestamp") (number 7) (
    field (codes "log") (object (field (codes "level") (string (esc ∷ codes "[31mWARN")) end))
      (field (codes "message") (string (codes "up")) end))

-- Numbers that are natural, dates that are empty texts, and a parser of one text.
abbrev runtime : Runtime ℕ
runtime = record {
  parse = λ s. if same s record_text then some (object record_fields) else none;
  stringify = λ v. [];
  is_array_method = λ s. same s (codes "map");
  to_number = λ s. none;
  show = λ n. codes "#";
  of_nat = λ n. n;
  is_finite = λ n. true;
  at_most = λ n k. leb n k;
  equals = λ n k. n == k;
  integer_of = λ n. some n;
  byte_of = λ n. if leb n 255 then some n else none;
  floor_thousandth = λ n. n;
  thousandfold = λ n. n;
  iso_date = λ n. some (codes "1970");
  is_date = λ s. true;
  to_upper = λ s. s;
  decode = λ bs. bs;
  code_of = λ s. none;
}

abbrev banner : Text
banner = codes "Picked up"

parse_line-plain_example : parse_line runtime banner json [] ≡ some (shown_plain runtime banner)
parse_line-plain_example =
    parse_line-plain runtime banner json []
      (inr (unfold decode_record object_of trim trim_start trim_end is_space same in refl))

abbrev columns : List ColumnSpec
columns =
    record { key = codes "@timestamp"; type = rfc3339 }
    ∷ record { key = codes "@timestamp"; type = epoch }
    ∷ record { key = codes "log.level"; type = log_level }
    ∷ record { key = codes "message"; type = string_column }
    ∷ []

parse_line-IsShown_example :
    IsShown runtime
      (names_method runtime (parse_default runtime record_text ecs).fields columns)
      record_text
      (parse_line runtime record_text ecs columns)
parse_line-IsShown_example = parse_line-IsShown runtime record_text ecs columns

abbrev entry : LogEntry ℕ
entry = plain_entry record_text

apply_columns-first_in_example : apply_columns runtime entry record_fields columns ≡ record entry {
  timestamp = first_of (first_in runtime (time_in runtime) record_fields columns) entry.timestamp;
  level = first_of (first_in runtime (level_in runtime) record_fields columns) entry.level;
  level_class =
      class_in runtime entry.level_class
        (first_in runtime (level_in runtime) record_fields columns);
  logger_short =
      logger_of runtime entry.logger_short
        (first_in runtime (logger_in runtime) record_fields columns);
  extras = extras_in runtime record_fields (extra_columns columns);
}
apply_columns-first_in_example = apply_columns-first_in runtime record_fields entry columns

sniff_format-any_example : sniff_format runtime (banner ∷ record_text ∷ []) ≡ (
    if any runtime (is_ecs_line runtime) (banner ∷ record_text ∷ [])
    then ecs
    else if any runtime (is_record runtime) (banner ∷ record_text ∷ [])
    then json
    else plain)
sniff_format-any_example = sniff_format-any runtime (banner ∷ record_text ∷ [])

date_run : is_rfc3339 (codes "2024-05-01T12:30:00.125+02:00") ≡ true
unfolding is_rfc3339 digits one_of pair_then drop_digits drop_fraction at_end is_zone same
date_run = refl

logger_run : abbreviate_logger (codes "com.example.MyLogger") ≡ codes "c.e.MyLogger"
unfolding abbreviate_logger cut_segments first_character split openshift_console.Prelude.Text.join
logger_run = refl

-- A column that names a method.
method_run :
    parse_line runtime record_text ecs
      (record { key = codes "constructor"; type = string_column } ∷ [])
    ≡ none
unfolding parse_default decode_record trim trim_end trim_start is_space object_of same
    openshift_console.Logs.Parse.Record.decoded_entry
    openshift_console.Logs.Parse.Record.record_entry openshift_console.Logs.Parse.Fields.pick
    openshift_console.Logs.Parse.Fields.object_member openshift_console.Prelude.Json.get_field
    openshift_console.Logs.Parse.Fields.inherited openshift_console.Prelude.Text.Keys.includes
method_run =
    parse_line-IsShown runtime record_text ecs
      (record { key = codes "constructor"; type = string_column } ∷ [])

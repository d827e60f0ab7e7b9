-- ===== src/Logs/Parse/Record.antt =====
-- A line as an entry, with the columns of its format.
use openshift_console.Prelude.{
  ℕ, Bool, true, false, List, [], ◌∷◌, Option, none, some, ◌==◌, ltb, if◌then◌else◌, length, get_or,
}
use openshift_console.Prelude.Text.{Text, codes}
use openshift_console.Prelude.Text.Digits.{is_digits}
use openshift_console.Prelude.Text.Trim.{trim}
use openshift_console.Prelude.Json.{Value, number, string, array, object, Fields, get_field, items}
use openshift_console.Logs.Parse.Entry.{Runtime, LogFormat, plain, json, ecs, journald, LogEntry}
use openshift_console.Logs.Parse.Fields.{
  pick, first_string, first_stack, as_stack_trace, finite_number, normalize_level,
}

-- The keys of the JSON view.
abbrev pub json_time_keys : List Text
json_time_keys =
    codes "@timestamp"
    ∷ codes "timestamp"
    ∷ codes "time"
    ∷ codes "ts"
    ∷ codes "Time"
    ∷ codes "datetime"
    ∷ codes "date"
    ∷ codes "eventTime"
    ∷ []

abbrev pub json_level_keys : List Text
json_level_keys =
    codes "log.level"
    ∷ codes "level"
    ∷ codes "levelname"
    ∷ codes "severity"
    ∷ codes "SeverityText"
    ∷ codes "loglevel"
    ∷ codes "lvl"
    ∷ codes "levelName"
    ∷ []

abbrev pub json_logger_keys : List Text
json_logger_keys =
    codes "log.logger"
    ∷ codes "logger"
    ∷ codes "logger_name"
    ∷ codes "loggerName"
    ∷ codes "channel"
    ∷ codes "category"
    ∷ codes "module"
    ∷ codes "component"
    ∷ codes "name"
    ∷ []

abbrev pub json_message_keys : List Text
json_message_keys =
    codes "message"
    ∷ codes "msg"
    ∷ codes "Message"
    ∷ codes "log"
    ∷ codes "text"
    ∷ codes "body"
    ∷ codes "short_message"
    ∷ []

abbrev pub json_stack_keys : List Text
json_stack_keys =
    codes "error.stack_trace"
    ∷ codes "stack_trace"
    ∷ codes "stacktrace"
    ∷ codes "stackTrace"
    ∷ codes "exception"
    ∷ codes "error.stack"
    ∷ codes "stack"
    ∷ []

abbrev pub syslog_names : List Text
syslog_names =
    codes "EMERG"
    ∷ codes "ALERT"
    ∷ codes "CRIT"
    ∷ codes "ERR"
    ∷ codes "WARNING"
    ∷ codes "NOTICE"
    ∷ codes "INFO"
    ∷ codes "DEBUG"
    ∷ []

-- `a ?? b`.
unfoldable pub or_else {ℓ} : {A : Type ℓ} → Option A → Option A → Option A
or_else none other = other
or_else (some x) other = some x

unfoldable pub or_default {ℓ} : {A : Type ℓ} → Option A → A → A
or_default none default = default
or_default (some x) default = x

unfoldable pub plain_entry : {N : Type 0} → Text → LogEntry N
plain_entry raw = record {
  raw = raw;
  timestamp = none;
  level = none;
  level_class = none;
  logger = none;
  logger_short = none;
  priority = none;
  unit = none;
  message = raw;
  message_spans = none;
  stack_trace = none;
  error_type = none;
  error_message = none;
  fields = none;
  extras = [];
  structured = false;
}

abbrev pub starts_with_brace : Text → Bool
starts_with_brace [] = false
starts_with_brace (c ∷ s) = c == 123

module _ {N : Type 0} (rt : Runtime N) where
  unfoldable pub object_of : Option (Value N) → Option (Fields N)
  object_of none = none
  object_of (some v) = elim v [ object fs ↦ some fs | _ ↦ none ]

  unfoldable pub decode_record : Text → Option (Fields N)
  decode_record raw = if starts_with_brace (trim raw) then object_of (rt.parse (trim raw)) else none

  -- The date of a number of microseconds.
  unfoldable pub journald_timestamp : Option (Value N) → Option Text
  journald_timestamp none = none
  journald_timestamp (some v) = elim v [
    | string s ↦
        if is_digits s
        then elim (finite_number rt s) [
          | none ↦ none
          | some micros ↦ rt.iso_date (rt.floor_thousandth micros)
        ]
        else none
    | _ ↦ none
  ]

  -- The bytes of an array, if all its values are bytes.
  unfoldable pub bytes_of : List (Value N) → Option (List ℕ)
  bytes_of [] = some []
  bytes_of (v ∷ vs) = elim v [
    | number n ↦ elim (rt.byte_of n) [
      | none ↦ none
      | some b ↦ elim (bytes_of vs) [ none ↦ none | some bs ↦ some (b ∷ bs) ]
    ]
    | _ ↦ none
  ]

  unfoldable pub journald_message : Option (Value N) → Option Text
  journald_message none = none
  journald_message (some v) = elim v [
    | string s ↦ some s
    | array vs ↦ elim (bytes_of (items vs)) [ none ↦ none | some bs ↦ some (rt.decode bs) ]
    | _ ↦ none
  ]

  unfoldable pub integer_text : Text → Option ℕ
  integer_text s = elim (rt.to_number s) [ none ↦ none | some n ↦ rt.integer_of n ]

  unfoldable pub syslog_level_name : Option Text → Option Text
  syslog_level_name none = none
  syslog_level_name (some priority) = elim (integer_text priority) [
    | none ↦ some priority
    | some value ↦
        some (if ltb value (length syslog_names) then get_or syslog_names value [] else priority)
  ]

  unfoldable pub journald_entry : Text → Fields N → LogEntry N
  journald_entry raw fs =
      let unit =
        or_else (first_string rt fs (codes "_SYSTEMD_UNIT" ∷ []))
          (first_string rt fs (codes "SYSLOG_IDENTIFIER" ∷ codes "_COMM" ∷ [])) in
      let priority = first_string rt fs (codes "PRIORITY" ∷ []) in
      record {
        raw = raw;
        timestamp = journald_timestamp (get_field fs (codes "__REALTIME_TIMESTAMP"));
        level = syslog_level_name priority;
        level_class = normalize_level rt priority;
        logger = none;
        logger_short = none;
        priority = priority;
        unit = unit;
        message = or_default (journald_message (get_field fs (codes "MESSAGE"))) raw;
        message_spans = none;
        stack_trace = none;
        error_type = none;
        error_message = none;
        fields = some fs;
        extras = [];
        structured = true;
      }

  -- The entry of an ECS or a JSON record, by the keys of its format.
  unfoldable pub record_entry :
      Text → Fields N → List Text → List Text → List Text → List Text → Option Text → LogEntry N
  record_entry raw fs time_keys level_keys logger_keys message_keys stack_trace =
      let level = first_string rt fs level_keys in
      record {
        raw = raw;
        timestamp = first_string rt fs time_keys;
        level = level;
        level_class = normalize_level rt level;
        logger = first_string rt fs logger_keys;
        logger_short = none;
        priority = none;
        unit = none;
        message = or_default (first_string rt fs message_keys) raw;
        message_spans = none;
        stack_trace = stack_trace;
        error_type = first_string rt fs (codes "error.type" ∷ []);
        error_message = first_string rt fs (codes "error.message" ∷ []);
        fields = some fs;
        extras = [];
        structured = true;
      }

  unfoldable pub decoded_entry : Text → LogFormat → Fields N → LogEntry N
  decoded_entry raw plain fs = plain_entry raw
  decoded_entry raw journald fs = journald_entry raw fs
  decoded_entry raw ecs fs =
      record_entry raw fs (codes "@timestamp" ∷ []) (codes "log.level" ∷ [])
        (codes "log.logger" ∷ []) (codes "message" ∷ [])
        (as_stack_trace (pick rt fs (codes "error.stack_trace")))
  decoded_entry raw json fs =
      record_entry raw fs json_time_keys json_level_keys json_logger_keys json_message_keys
        (first_stack rt fs json_stack_keys)

  unfoldable pub parse_default : Text → LogFormat → LogEntry N
  parse_default raw plain = plain_entry raw
  parse_default raw format = elim (decode_record raw) [
    | none ↦ plain_entry raw
    | some fs ↦ decoded_entry raw format fs
  ]

-- ===== src/Logs/Parse/Entry.antt =====
-- Log entries, the columns that an annotation asks for, and what the runtime gives.
use openshift_console.Prelude.{ℕ, Bool, true, false, List, [], ◌∷◌, Option, if◌then◌else◌}
use openshift_console.Prelude.Text.{Text, codes}
use openshift_console.Prelude.Text.Keys.{includes}
use openshift_console.Prelude.Json.{Value, Fields}
use openshift_console.Logs.Ansi.Style.{AnsiSpan}

pub data LogFormat : Type 0 where
  plain json ecs journald : LogFormat

pub data ColumnType : Type 0 where
  rfc3339 rfc3339nano epoch_ms epoch log_level abbreviate number_column string_column : ColumnType

pub record ColumnSpec : Type 0 where
  pub key : Text
  pub type : ColumnType

pub data LogLevel : Type 0 where
  trace debug info warn error fatal : LogLevel

pub record LogEntry (N : Type 0) : Type 0 where
  pub raw : Text
  pub timestamp : Option Text
  pub level : Option Text
  pub level_class : Option LogLevel
  pub logger : Option Text
  pub logger_short : Option Text
  pub priority : Option Text
  pub unit : Option Text
  pub message : Text
  pub message_spans : Option (List AnsiSpan)
  pub stack_trace : Option Text
  pub error_type : Option Text
  pub error_message : Option Text
  pub fields : Option (Fields N)
  -- `none` for undefined.
  pub extras : List (Option Text)
  pub structured : Bool

-- The runtime's functions on JSON, numbers and dates.
pub record Runtime (N : Type 0) : Type 0 where
  -- `JSON.parse`, with `none` where it throws, and `JSON.stringify`.
  pub parse : Text → Option (Value N)
  pub stringify : Value N → Text
  -- The names of the methods of arrays.
  pub is_array_method : Text → Bool
  -- `Number(text)`, with `none` for NaN, and `String(number)`.
  pub to_number : Text → Option N
  pub show : N → Text
  pub of_nat : ℕ → N
  pub is_finite : N → Bool
  -- `x <= n`, `x === n`.
  pub at_most : N → ℕ → Bool
  pub equals : N → ℕ → Bool
  -- The integer of 0 and more that a number is.
  pub integer_of : N → Option ℕ
  -- What a byte array holds of a number from 0 to 255.
  pub byte_of : N → Option ℕ
  pub floor_thousandth : N → N
  pub thousandfold : N → N
  -- `new Date(number).toISOString()`, with `none` for an invalid date.
  pub iso_date : N → Option Text
  -- Whether `Date.parse` reads the text.
  pub is_date : Text → Bool
  pub to_upper : Text → Text
  -- `TextDecoder.decode`.
  pub decode : List ℕ → Text
  -- The natural number that a code of a style stands for.
  pub code_of : Text → Option ℕ

abbrev pub log_formats : List Text
log_formats = codes "plain" ∷ codes "json" ∷ codes "ecs" ∷ codes "journald" ∷ []

unfoldable pub is_log_format : Text → Bool
is_log_format value = includes log_formats value

abbrev pub column_types : List Text
column_types =
    codes "date/rfc3339"
    ∷ codes "date/rfc3339nano"
    ∷ codes "date/epoch-ms"
    ∷ codes "epoch"
    ∷ codes "log-level"
    ∷ codes "abbreviate"
    ∷ codes "number"
    ∷ codes "string"
    ∷ []

unfoldable pub is_column_type : Text → Bool
is_column_type value = includes column_types value

unfoldable pub is_extra : ColumnType → Bool
is_extra number_column = true
is_extra string_column = true
is_extra t = false

unfoldable pub extra_columns : List ColumnSpec → List ColumnSpec
extra_columns [] = []
extra_columns (c ∷ cs) = let rest = extra_columns cs in if is_extra c.type then c ∷ rest else rest

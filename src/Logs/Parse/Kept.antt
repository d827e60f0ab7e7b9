-- ===== src/Logs/Parse/Kept.antt =====
-- What one column of an annotation gives, and that it is kept once it is set.
use openshift_console.Prelude.{
  ◌≡◌, Bool, true, false, List, [], ◌∷◌, ◌++◌, Option, none, some, if◌then◌else◌, refl, append-nil,
  arith,
}
use openshift_console.Prelude.Text.{Text}
use openshift_console.Prelude.Json.{Fields}
use openshift_console.Logs.Parse.Entry.{
  Runtime, LogLevel, ColumnSpec, ColumnType, rfc3339, rfc3339nano, epoch_ms, epoch, log_level,
  abbreviate, number_column, string_column, is_extra,
}
use openshift_console.Logs.Parse.Fields.{Found, pick, text_of, normalize_level}
use openshift_console.Logs.Parse.Columns.{
  Applied, as_number, as_timestamp, as_text, shown_number, abbreviate_logger, set_time, set_level,
  set_logger, apply_column,
}

abbrev pub first_of {ℓ} : {A : Type ℓ} → Option A → Option A → Option A
first_of none other = other
first_of (some x) other = some x

module _ {N : Type 0} (rt : Runtime N) where
  -- What a column gives for the time, the level, the logger and the extra columns.
  abbrev pub time_in : ColumnType → Option (Found N) → Option Text
  time_in rfc3339 v = as_timestamp rt v rfc3339
  time_in rfc3339nano v = as_timestamp rt v rfc3339nano
  time_in epoch_ms v = as_timestamp rt v epoch_ms
  time_in epoch v = as_timestamp rt v epoch
  time_in log_level v = none
  time_in abbreviate v = none
  time_in number_column v = none
  time_in string_column v = none

  abbrev pub level_in : ColumnType → Option (Found N) → Option Text
  level_in log_level v = text_of rt v
  level_in rfc3339 v = none
  level_in rfc3339nano v = none
  level_in epoch_ms v = none
  level_in epoch v = none
  level_in abbreviate v = none
  level_in number_column v = none
  level_in string_column v = none

  abbrev pub logger_in : ColumnType → Option (Found N) → Option Text
  logger_in abbreviate v = text_of rt v
  logger_in rfc3339 v = none
  logger_in rfc3339nano v = none
  logger_in epoch_ms v = none
  logger_in epoch v = none
  logger_in log_level v = none
  logger_in number_column v = none
  logger_in string_column v = none

  abbrev pub extra_in : ColumnType → Option (Found N) → Option Text
  extra_in number_column v = some (shown_number rt (as_number rt v))
  extra_in string_column v = as_text rt v
  extra_in rfc3339 v = some []
  extra_in rfc3339nano v = some []
  extra_in epoch_ms v = some []
  extra_in epoch v = some []
  extra_in log_level v = some []
  extra_in abbreviate v = some []

  -- The first of the columns that gives something.
  abbrev pub first_in :
      (ColumnType → Option (Found N) → Option Text) → Fields N → List ColumnSpec → Option Text
  first_in read fs [] = none
  first_in read fs (c ∷ cs) = first_of (read c.type (pick rt fs c.key)) (first_in read fs cs)

  -- The texts of the extra columns, one for each.
  abbrev pub extras_in : Fields N → List ColumnSpec → List (Option Text)
  extras_in fs [] = []
  extras_in fs (c ∷ cs) = extra_in c.type (pick rt fs c.key) ∷ extras_in fs cs

  -- A value that is kept once it is set.
  abbrev pub kept : Bool → Option Text → Option Text → Option Text
  kept true old new = old
  kept false old new = first_of new old

  -- The class that comes with a level.
  abbrev pub class_in : Option LogLevel → Option Text → Option LogLevel
  class_in old none = old
  class_in old (some t) = normalize_level rt (some t)

  abbrev pub kept_class : Bool → Option LogLevel → Option Text → Option LogLevel
  kept_class true old new = old
  kept_class false old new = class_in old new

  abbrev pub logger_of : Option Text → Option Text → Option Text
  logger_of old none = old
  logger_of old (some t) = some (abbreviate_logger t)

  abbrev pub kept_logger : Bool → Option Text → Option Text → Option Text
  kept_logger true old new = old
  kept_logger false old new = logger_of old new

  pub kept_none : (b : Bool) (old : Option Text) → kept b old none ≡ old
  kept_none true old = refl
  kept_none false old = refl

  pub kept_class-none : (b : Bool) (old : Option LogLevel) → kept_class b old none ≡ old
  kept_class-none true old = refl
  kept_class-none false old = refl

  pub kept_logger-none : (b : Bool) (old : Option Text) → kept_logger b old none ≡ old
  kept_logger-none true old = refl
  kept_logger-none false old = refl

  pub kept-time :
      (a : Applied) (t : ColumnType) (v : Option (Found N)) (new : Option Text)
      → kept (apply_column rt a t v).time_set (apply_column rt a t v).timestamp new
        ≡ kept a.time_set a.timestamp (first_of (time_in t v) new)
  unfolding apply_column set_time set_level set_logger
  kept-time a t v new = ground arith

  pub kept-level :
      (a : Applied) (t : ColumnType) (v : Option (Found N)) (new : Option Text)
      → kept (apply_column rt a t v).level_set (apply_column rt a t v).level new
        ≡ kept a.level_set a.level (first_of (level_in t v) new)
  unfolding apply_column set_time set_level set_logger
  kept-level a t v new = ground arith

  pub kept_class_lem :
      (a : Applied) (t : ColumnType) (v : Option (Found N)) (new : Option Text)
      → kept_class (apply_column rt a t v).level_set (apply_column rt a t v).level_class new
        ≡ kept_class a.level_set a.level_class (first_of (level_in t v) new)
  unfolding apply_column set_time set_level set_logger
  kept_class_lem a t v new = ground arith

  pub kept_logger_lem :
      (a : Applied) (t : ColumnType) (v : Option (Found N)) (new : Option Text)
      → kept_logger (apply_column rt a t v).logger_set (apply_column rt a t v).logger_short new
        ≡ kept_logger a.logger_set a.logger_short (first_of (logger_in t v) new)
  unfolding apply_column set_time set_level set_logger
  kept_logger_lem a t v new = ground arith

  pub extras-column :
      (a : Applied) (t : ColumnType) (v : Option (Found N))
      → (apply_column rt a t v).extras ≡ a.extras ++ (if is_extra t then extra_in t v ∷ [] else [])
  unfolding apply_column set_time set_level set_logger is_extra
  extras-column a t v = ground (arith, append-nil a.extras)

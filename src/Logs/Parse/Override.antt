-- ===== src/Logs/Parse/Override.antt =====
-- What the columns of an annotation make of an entry.
use openshift_console.Prelude.{
  ◌≡◌, inl, inr, List, [], ◌∷◌, ◌++◌, none, if◌then◌else◌, refl, ◌∙◌, ap, sym, append-nil,
  append_assoc, Bool-cases,
}
use openshift_console.Prelude.Json.{Fields}
use openshift_console.Logs.Parse.Entry.{Runtime, LogEntry, ColumnSpec, extra_columns, is_extra}
use openshift_console.Logs.Parse.Fields.{pick}
use openshift_console.Logs.Parse.Columns.{
  Applied, apply_column, apply_each, unapplied, apply_columns,
}
use openshift_console.Logs.Parse.Kept.{
  first_of, time_in, level_in, logger_in, extra_in, first_in, extras_in, kept, class_in, kept_class,
  logger_of, kept_logger, kept_none, kept_class-none, kept_logger-none, kept-time, kept-level,
  kept_class_lem, kept_logger_lem, extras-column,
}

module _ {N : Type 0} (rt : Runtime N) where
  module _ (fs : Fields N) where
    each-time :
        (a : Applied) (cs : List ColumnSpec)
        → kept rt (apply_each rt a fs cs).time_set (apply_each rt a fs cs).timestamp none
          ≡ kept rt a.time_set a.timestamp (first_in rt (time_in rt) fs cs)
    unfolding apply_each
    each-time a [] = refl
    each-time a (c ∷ cs) =
        each-time (apply_column rt a c.type (pick rt fs c.key)) cs
        ∙ kept-time rt a c.type (pick rt fs c.key) (first_in rt (time_in rt) fs cs)

    each-level :
        (a : Applied) (cs : List ColumnSpec)
        → kept rt (apply_each rt a fs cs).level_set (apply_each rt a fs cs).level none
          ≡ kept rt a.level_set a.level (first_in rt (level_in rt) fs cs)
    unfolding apply_each
    each-level a [] = refl
    each-level a (c ∷ cs) =
        each-level (apply_column rt a c.type (pick rt fs c.key)) cs
        ∙ kept-level rt a c.type (pick rt fs c.key) (first_in rt (level_in rt) fs cs)

    each-class :
        (a : Applied) (cs : List ColumnSpec)
        → kept_class rt (apply_each rt a fs cs).level_set (apply_each rt a fs cs).level_class none
          ≡ kept_class rt a.level_set a.level_class (first_in rt (level_in rt) fs cs)
    unfolding apply_each
    each-class a [] = refl
    each-class a (c ∷ cs) =
        each-class (apply_column rt a c.type (pick rt fs c.key)) cs
        ∙ kept_class_lem rt a c.type (pick rt fs c.key) (first_in rt (level_in rt) fs cs)

    each-logger :
        (a : Applied) (cs : List ColumnSpec)
        → kept_logger rt
            (apply_each rt a fs cs).logger_set
            (apply_each rt a fs cs).logger_short
            none
          ≡ kept_logger rt a.logger_set a.logger_short (first_in rt (logger_in rt) fs cs)
    unfolding apply_each
    each-logger a [] = refl
    each-logger a (c ∷ cs) =
        each-logger (apply_column rt a c.type (pick rt fs c.key)) cs
        ∙ kept_logger_lem rt a c.type (pick rt fs c.key) (first_in rt (logger_in rt) fs cs)

    pub extras_in-cons :
        (c : ColumnSpec) (cs : List ColumnSpec)
        → (if is_extra c.type then extra_in rt c.type (pick rt fs c.key) ∷ [] else [])
            ++ extras_in rt fs (extra_columns cs)
          ≡ extras_in rt fs (extra_columns (c ∷ cs))
    unfolding extra_columns
    extras_in-cons c cs = elim (Bool-cases (is_extra c.type)) [
      | inl e ↦ rw (e, extra_columns) refl
      | inr e ↦ rw (e, extra_columns) refl
    ]

    each-extras :
        (a : Applied) (cs : List ColumnSpec)
        → (apply_each rt a fs cs).extras ≡ a.extras ++ extras_in rt fs (extra_columns cs)
    unfolding apply_each extra_columns
    each-extras a [] = sym (append-nil a.extras)
    each-extras a (c ∷ cs) =
        each-extras (apply_column rt a c.type (pick rt fs c.key)) cs
        ∙ ap (λ l. l ++ extras_in rt fs (extra_columns cs))
            (extras-column rt a c.type (pick rt fs c.key))
        ∙ append_assoc a.extras _ (extras_in rt fs (extra_columns cs))
        ∙ ap (λ l. a.extras ++ l) (extras_in-cons c cs)

    -- An annotation's columns, read in their order: the time, the level and the logger are those of
    -- the first column that gives one, and stay as they were where none does; the class follows the
    -- level; each extra column has its text, or is undefined where it names a method, in the order of
    -- the columns; all else is kept.
    pub apply_columns-first_in :
        (entry : LogEntry N) (columns : List ColumnSpec)
        → apply_columns rt entry fs columns ≡ record entry {
          timestamp = first_of (first_in rt (time_in rt) fs columns) entry.timestamp;
          level = first_of (first_in rt (level_in rt) fs columns) entry.level;
          level_class = class_in rt entry.level_class (first_in rt (level_in rt) fs columns);
          logger_short = logger_of rt entry.logger_short (first_in rt (logger_in rt) fs columns);
          extras = extras_in rt fs (extra_columns columns);
        }
    unfolding apply_columns
    apply_columns-first_in entry columns =
        let a = apply_each rt (unapplied rt entry) fs columns in
        let time : a.timestamp ≡ first_of (first_in rt (time_in rt) fs columns) entry.timestamp =
          sym (kept_none rt a.time_set a.timestamp) ∙ each-time (unapplied rt entry) columns in
        let lev : a.level ≡ first_of (first_in rt (level_in rt) fs columns) entry.level =
          sym (kept_none rt a.level_set a.level) ∙ each-level (unapplied rt entry) columns in
        let class : a.level_class
            ≡ class_in rt entry.level_class (first_in rt (level_in rt) fs columns) =
          sym (kept_class-none rt a.level_set a.level_class)
          ∙ each-class (unapplied rt entry) columns in
        let log : a.logger_short
            ≡ logger_of rt entry.logger_short (first_in rt (logger_in rt) fs columns) =
          sym (kept_logger-none rt a.logger_set a.logger_short)
          ∙ each-logger (unapplied rt entry) columns in
        let more : a.extras ≡ extras_in rt fs (extra_columns columns) =
          each-extras (unapplied rt entry) columns in
        rw (time, lev, class, log, more) refl

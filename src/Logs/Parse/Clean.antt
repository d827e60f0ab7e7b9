-- ===== src/Logs/Parse/Clean.antt =====
-- The shown columns hold no escape character, and the line is kept, unless a TypeError is thrown.
use openshift_console.Prelude.{
  ◌≡◌, inl, inr, Bool, true, false, ◌||◌, List, [], ◌∷◌, Option, none, some, refl, ◌∙◌, Bool-cases,
  Option-cases, All, arith,
}
use mathlib.Core.Path.{subst}
use openshift_console.Prelude.Text.{Text}
use openshift_console.Logs.Ansi.Scan.{has_ansi}
use openshift_console.Logs.Ansi.Spans.{strip_ansi}
use openshift_console.Logs.Ansi.Runs.{IsClean, has_ansi-IsClean, strip_ansi-IsClean}
use openshift_console.Logs.Parse.Entry.{
  Runtime, LogFormat, plain, json, ecs, journald, LogEntry, ColumnSpec,
}
use openshift_console.Logs.Parse.Record.{
  decode_record, parse_default, plain_entry, decoded_entry, journald_entry, record_entry,
}
use openshift_console.Logs.Parse.Line.{
  stripped, stripped_all, has_field, has_extra, has_escape, without_ansi, with_columns, parse_line,
}
use openshift_console.Logs.Parse.Undefined.{
  has_undefined, has_extra-undefined, has_extra-defined, names_method, stripped_all-undefined,
  with_columns_lem,
}

-- A column that is empty or holds no escape character.
abbrev pub IsCleanField : Option Text → Type 0
IsCleanField none = Unit
IsCleanField (some t) = IsClean t

pub record IsCleanEntry {N : Type 0} (e : LogEntry N) : Type 0 where
  pub message_clean : IsClean e.message
  pub level_clean : IsCleanField e.level
  pub logger_clean : IsCleanField e.logger
  pub logger_short_clean : IsCleanField e.logger_short
  pub unit_clean : IsCleanField e.unit
  pub extras_clean : All IsCleanField e.extras

or_parts :
    (a b c d e : Bool)
    → (a || b || c || d || e) ≡ false
    → (a ≡ false) × (b ≡ false) × (c ≡ false) × (d ≡ false) × (e ≡ false)
or_parts a b c d e h = ground arith

has_field-IsCleanField : (field : Option Text) → has_field field ≡ false → IsCleanField field
unfolding has_field
has_field-IsCleanField none h = tt
has_field-IsCleanField (some t) h = has_ansi-IsClean t h

has_extra-All :
    (extras : List (Option Text)) → has_extra extras ≡ some false → All IsCleanField extras
unfolding has_extra
has_extra-All [] h = tt
has_extra-All (none ∷ ts) h = cc
has_extra-All (some t ∷ ts) h = elim (Bool-cases (has_ansi t)) [
  | inl e ↦ let w : some true ≡ some false = rw (e, has_extra) at h in cc
  | inr e ↦ (has_ansi-IsClean t e, has_extra-All ts (rw (e, has_extra) at h))
]

module _ {N : Type 0} (rt : Runtime N) where
  -- What the page is given: nothing where a method is to be shown, since that throws; else the line
  -- as it came, with clean columns.
  abbrev pub IsShown : Bool → Text → Option (LogEntry N) → Type 0
  IsShown true raw shown = shown ≡ none
  IsShown false raw none = ⊥
  IsShown false raw (some e) = (e.raw ≡ raw) × IsCleanEntry e

  stripped-IsCleanField : (field : Option Text) → IsCleanField (stripped rt field)
  unfolding stripped
  stripped-IsCleanField none = tt
  stripped-IsCleanField (some t) = strip_ansi-IsClean rt.code_of t

  stripped_all-defined :
      (extras : List (Option Text))
      → has_undefined extras ≡ false
      → (us : List (Option Text)) × (stripped_all rt extras ≡ some us) × All IsCleanField us
  unfolding stripped_all
  stripped_all-defined [] h = ([], refl, tt)
  stripped_all-defined (none ∷ ts) h = cc
  stripped_all-defined (some t ∷ ts) h =
      let (us, e, clean) = stripped_all-defined ts h in
      (some (strip_ansi rt.code_of t) ∷ us, rw e refl, (strip_ansi-IsClean rt.code_of t, clean))

  -- The columns in front of the extra ones.
  abbrev escapes : LogEntry N → Bool
  escapes e =
      has_ansi e.message
      || has_field e.level
      || has_field e.logger
      || has_field e.logger_short
      || has_field e.unit

  without_ansi-stripped :
      (e : LogEntry N)
      → has_undefined e.extras ≡ false
      → has_escape rt e ≡ some true
      → IsShown false e.raw (without_ansi rt e)
  unfolding without_ansi
  without_ansi-stripped e h w =
      let (us, stripped_to, clean) = stripped_all-defined e.extras h in
      rw (without_ansi, w, stripped_to)
        (
          refl,
          record {
            message_clean = strip_ansi-IsClean rt.code_of e.message;
            level_clean = stripped-IsCleanField e.level;
            logger_clean = stripped-IsCleanField e.logger;
            logger_short_clean = stripped-IsCleanField e.logger_short;
            unit_clean = stripped-IsCleanField e.unit;
            extras_clean = clean;
          },
        )

  without_ansi-kept :
      (e : LogEntry N)
      → escapes e ≡ false
      → has_extra e.extras ≡ some false
      → IsShown false e.raw (without_ansi rt e)
  unfolding without_ansi has_escape
  without_ansi-kept e w x =
      let (m, l, g, s, u) =
        or_parts (has_ansi e.message) (has_field e.level) (has_field e.logger)
          (has_field e.logger_short) (has_field e.unit) w in
      rw (without_ansi, has_escape, w, x)
        (
          refl,
          record {
            message_clean = has_ansi-IsClean e.message m;
            level_clean = has_field-IsCleanField e.level l;
            logger_clean = has_field-IsCleanField e.logger g;
            logger_short_clean = has_field-IsCleanField e.logger_short s;
            unit_clean = has_field-IsCleanField e.unit u;
            extras_clean = has_extra-All e.extras x;
          },
        )

  without_ansi-undefined :
      (e : LogEntry N) → has_undefined e.extras ≡ true → without_ansi rt e ≡ none
  unfolding without_ansi has_escape
  without_ansi-undefined e h =
      let gone = stripped_all-undefined rt e.extras h in
      elim (Bool-cases (escapes e)) [
        | inl w ↦ rw (without_ansi, has_escape, w, gone) refl
        | inr w ↦ elim (has_extra-undefined e.extras h) [
          | inl x ↦ rw (without_ansi, has_escape, w, x) refl
          | inr x ↦ rw (without_ansi, has_escape, w, x, gone) refl
        ]
      ]

  without_ansi-IsShown :
      (e : LogEntry N) → IsShown (has_undefined e.extras) e.raw (without_ansi rt e)
  unfolding has_escape
  without_ansi-IsShown e = elim (Bool-cases (has_undefined e.extras)) [
    | inl h ↦ rw h (without_ansi-undefined e h)
    | inr h ↦ rw h (elim (Bool-cases (escapes e)) [
      | inl w ↦ without_ansi-stripped e h (rw (has_escape, w) refl)
      | inr w ↦ elim (has_extra-defined e.extras h) [
        | inl x ↦ without_ansi-kept e w x
        | inr x ↦ without_ansi-stripped e h (rw (has_escape, w, x) refl)
      ]
    ])
  ]

  parse_default-raw :
      (raw : Text) (format : LogFormat)
      → ((parse_default rt raw format).raw ≡ raw) × ((parse_default rt raw format).extras ≡ [])
  unfolding parse_default plain_entry decoded_entry journald_entry record_entry
  parse_default-raw raw plain = (refl, refl)
  parse_default-raw raw json = elim (Option-cases (decode_record rt raw)) [
    | inl e ↦ rw (parse_default, e) (refl, refl)
    | inr (fs, e) ↦ rw (parse_default, e) (refl, refl)
  ]
  parse_default-raw raw ecs = elim (Option-cases (decode_record rt raw)) [
    | inl e ↦ rw (parse_default, e) (refl, refl)
    | inr (fs, e) ↦ rw (parse_default, e) (refl, refl)
  ]
  parse_default-raw raw journald = elim (Option-cases (decode_record rt raw)) [
    | inl e ↦ rw (parse_default, e) (refl, refl)
    | inr (fs, e) ↦ rw (parse_default, e) (refl, refl)
  ]

  -- Whatever the line, the format and the columns: if a column of type string names a method that
  -- every object or array has, a TypeError is thrown; else there is an entry, which keeps the line as
  -- it came, and its message, level, logger, unit and extra columns hold no escape character.
  pub parse_line-IsShown :
      (raw : Text) (format : LogFormat) (columns : List ColumnSpec)
      → IsShown
          (names_method rt (parse_default rt raw format).fields columns)
          raw
          (parse_line rt raw format columns)
  unfolding parse_line
  parse_line-IsShown raw format columns =
      let entry = parse_default rt raw format in
      let full = with_columns rt entry entry.fields columns in
      let (kept, empty) = parse_default-raw raw format in
      let (same_raw, methods) = with_columns_lem rt entry entry.fields columns empty in
      let shown = without_ansi rt full in
      subst (λ b. IsShown b raw shown) methods
        (subst (λ r. IsShown (has_undefined full.extras) r shown) (same_raw ∙ kept)
          (without_ansi-IsShown full))

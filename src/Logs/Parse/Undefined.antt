-- ===== src/Logs/Parse/Undefined.antt =====
-- Columns that are undefined, since they find a method.
use openshift_console.Prelude.{
  ◌≡◌, ◌⊎◌, ◌++◌, if◌then◌else◌, ap, sym, inl, inr, Bool, true, false, ◌||◌, List, [], ◌∷◌, Option,
  none, some, refl, ◌∙◌, Bool-cases, arith,
}
use openshift_console.Prelude.Text.{Text}
use openshift_console.Prelude.Json.{Fields}
use openshift_console.Logs.Ansi.Scan.{has_ansi}
use openshift_console.Logs.Parse.Entry.{
  Runtime, LogEntry, ColumnSpec, ColumnType, string_column, is_extra, extra_columns,
}
use openshift_console.Logs.Parse.Fields.{Found, method, pick}
use openshift_console.Logs.Parse.Columns.{as_text}
use openshift_console.Logs.Parse.Kept.{extra_in, extras_in}
use openshift_console.Logs.Parse.Override.{extras_in-cons, apply_columns-first_in}
use openshift_console.Logs.Parse.Line.{stripped_all, has_extra, with_columns}

-- An extra column is undefined.
abbrev pub has_undefined : List (Option Text) → Bool
has_undefined [] = false
has_undefined (none ∷ ts) = true
has_undefined (some t ∷ ts) = has_undefined ts

-- An undefined column is met, or one with an escape sequence in front of it.
pub has_extra-undefined :
    (extras : List (Option Text))
    → has_undefined extras ≡ true
    → (has_extra extras ≡ none) ⊎ (has_extra extras ≡ some true)
unfolding has_extra
has_extra-undefined [] h = cc
has_extra-undefined (none ∷ ts) h = inl refl
has_extra-undefined (some t ∷ ts) h = elim (Bool-cases (has_ansi t)) [
  | inl e ↦ rw (has_extra, e) (inr refl)
  | inr e ↦ rw (has_extra, e) (has_extra-undefined ts h)
]

pub has_extra-defined :
    (extras : List (Option Text))
    → has_undefined extras ≡ false
    → (has_extra extras ≡ some false) ⊎ (has_extra extras ≡ some true)
unfolding has_extra
has_extra-defined [] h = inl refl
has_extra-defined (none ∷ ts) h = cc
has_extra-defined (some t ∷ ts) h = elim (Bool-cases (has_ansi t)) [
  | inl e ↦ rw (has_extra, e) (inr refl)
  | inr e ↦ rw (has_extra, e) (has_extra-defined ts h)
]

abbrev pub is_method : {N : Type 0} → ColumnType → Option (Found N) → Bool
is_method string_column (some method) = true
is_method t v = false

module _ {N : Type 0} (rt : Runtime N) where
  -- Some column is of type string and finds a method.
  abbrev pub names_method : Option (Fields N) → List ColumnSpec → Bool
  names_method none cs = false
  names_method (some fs) [] = false
  names_method (some fs) (c ∷ cs) = is_method c.type (pick rt fs c.key) || names_method (some fs) cs

  pub stripped_all-undefined :
      (extras : List (Option Text)) → has_undefined extras ≡ true → stripped_all rt extras ≡ none
  unfolding stripped_all
  stripped_all-undefined [] h = cc
  stripped_all-undefined (none ∷ ts) h = refl
  stripped_all-undefined (some t ∷ ts) h = rw (stripped_all-undefined ts h) refl

  undefined-extra :
      (t : ColumnType) (v : Option (Found N)) (rest : List (Option Text))
      → has_undefined ((if is_extra t then extra_in rt t v ∷ [] else []) ++ rest)
        ≡ (is_method t v || has_undefined rest)
  unfolding is_extra as_text
  undefined-extra t v rest = ground arith

  undefined-extras_in :
      (fs : Fields N) (cs : List ColumnSpec)
      → has_undefined (extras_in rt fs (extra_columns cs)) ≡ names_method (some fs) cs
  unfolding extra_columns
  undefined-extras_in fs [] = refl
  undefined-extras_in fs (c ∷ cs) =
      ap has_undefined (sym (extras_in-cons rt fs c cs))
      ∙ undefined-extra c.type (pick rt fs c.key) (extras_in rt fs (extra_columns cs))
      ∙ ap (λ b. is_method c.type (pick rt fs c.key) || b) (undefined-extras_in fs cs)

  pub with_columns_lem :
      (e : LogEntry N) (fs : Option (Fields N)) (columns : List ColumnSpec)
      → e.extras ≡ []
      → ((with_columns rt e fs columns).raw ≡ e.raw)
        × (has_undefined (with_columns rt e fs columns).extras ≡ names_method fs columns)
  unfolding with_columns
  with_columns_lem e none columns h = (refl, ap has_undefined h)
  with_columns_lem e (some fs) [] h = (refl, ap has_undefined h)
  with_columns_lem e (some fs) (c ∷ cs) h =
      let made = apply_columns-first_in rt fs e (c ∷ cs) in
      (
        ap (λ x. x.raw) made,
        ap (λ x. has_undefined x.extras) made ∙ undefined-extras_in fs (c ∷ cs),
      )

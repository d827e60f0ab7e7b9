-- ===== src/Logs/Hints/Grouping.antt =====
-- The annotation as containers, each with the columns that follow it.
use openshift_console.Prelude.{
  ℕ, suc, ◌≡◌, ◌||◌, not, [], Option, none, some, ltb, drop, if◌then◌else◌, refl, ◌∙◌, arith,
  Bool-cases, Option-cases, inl, inr,
}
use openshift_console.Prelude.Text.{Text, same, index_of, slice}
use openshift_console.Prelude.Text.Trim.{trim}
use openshift_console.Prelude.Text.Keys.{lookup}
use openshift_console.Logs.Parse.Entry.{ColumnSpec, ColumnType, is_log_format}
use openshift_console.Logs.Hints.{
  Reader, type_names, ends_current, push_column, push_typed, read_first, is_found, make_hint,
  read_columns, read_entry, read_column, head_of, read_pair, read_blank, read_at, read_token,
}

-- What a token between two commas is: white space, a container with its format and a first column
-- (none, one that is no column, or a column), a column, or none of these.
pub data Token : Type 0 where
  white stray : Token
  container : Text → Text → Option (Option ColumnSpec) → Token
  column : ColumnSpec → Token

unfoldable pub spec_of : Text → Option ColumnType → Option ColumnSpec
spec_of key none = none
spec_of key (some type) = some (record { key = key; type = type })

unfoldable pub first_spec : Text → Option ℕ → Option ColumnSpec
first_spec first none = none
first_spec first (some at) =
    if ltb 0 at
    then spec_of (trim (slice first 0 at)) (lookup type_names (trim (drop (suc at) first)))
    else none

unfoldable pub first_column : Text → Option ℕ → Option (Option ColumnSpec)
first_column value none = none
first_column value (some colon) =
    let first = drop (suc colon) value in some (first_spec first (index_of first 61 0))

abbrev pub column_or_stray : Option ColumnSpec → Token
column_or_stray none = stray
column_or_stray (some spec) = column spec

-- What a token does to what was read so far.
unfoldable pub push_first : Option (Option ColumnSpec) → Reader → Reader
push_first none r = r
push_first (some none) r = ends_current r
push_first (some (some spec)) r = record r { hints = push_column spec r.hints }

unfoldable pub act : Token → Reader → Reader
act white r = r
act stray r = ends_current r
act (container name format first) r = push_first first (make_hint name format r)
act (column spec) r =
    if r.current then record r { hints = push_column spec r.hints } else ends_current r

push_typed-spec_of :
    (key : Text) (type : Option ColumnType) (r : Reader)
    → push_typed key type r ≡ push_first (some (spec_of key type)) r
unfolding push_typed push_first spec_of
push_typed-spec_of key none r = refl
push_typed-spec_of key (some type) r = refl

read_first-first_spec :
    (first : Text) (at : Option ℕ) (r : Reader)
    → read_first first at r ≡ push_first (some (first_spec first at)) r
unfolding read_first first_spec
read_first-first_spec first none r = unfold push_first in refl
read_first-first_spec first (some at) r =
    let key = trim (slice first 0 at) in
    let type = lookup type_names (trim (drop (suc at) first)) in
    elim (Bool-cases (ltb 0 at)) [
      | inl e ↦ rw e (push_typed-spec_of key type r)
      | inr e ↦ rw e (unfold push_first in refl)
    ]

read_columns-first_column :
    (value : Text) (colon : Option ℕ) (r : Reader)
    → read_columns value colon r ≡ push_first (first_column value colon) r
unfolding read_columns first_column
read_columns-first_column value none r = unfold push_first in refl
read_columns-first_column value (some colon) r =
    let first = drop (suc colon) value in read_first-first_spec first (index_of first 61 0) r

act-column_or_stray :
    (name : Text) (type : Option ColumnType) (r : Reader)
    → (if r.current then push_typed name type r else ends_current r)
      ≡ act (column_or_stray (spec_of name type)) r
unfolding act push_typed spec_of
act-column_or_stray name none r = ground arith
act-column_or_stray name (some type) r = refl

module _ (to_lower : Text → Text) where
  unfoldable pub pair_token : Text → Text → Token
  pair_token name value =
      let colon = index_of value 58 0 in
      let head = head_of to_lower colon value in
      if is_found colon || is_log_format head
      then (if same name [] || not (is_log_format head)
          then stray
          else container name head (first_column value colon))
      else if same name []
      then stray
      else column_or_stray (spec_of name (lookup type_names value))

  unfoldable pub token_at : Option ℕ → Text → Token
  token_at none token = if same (trim token) [] then white else stray
  token_at (some eq) token = pair_token (trim (slice token 0 eq)) (trim (drop (suc eq) token))

  unfoldable pub token_of : Text → Token
  token_of token = token_at (index_of token 61 0) token

  read_pair-act :
      (name value : Text) (r : Reader)
      → read_pair to_lower name value r ≡ act (pair_token name value) r
  unfolding read_pair pair_token read_entry read_column
  read_pair-act name value r =
      let colon = index_of value 58 0 in
      let head = head_of to_lower colon value in
      let type = lookup type_names value in
      let entry = read_columns-first_column value colon (make_hint name head r) in
      let typed = act-column_or_stray name type r in
      elim (Bool-cases (is_found colon || is_log_format head)) [
        | inl e ↦ elim (Bool-cases (same name [] || not (is_log_format head))) [
          | inl bad ↦ rw (e, bad) (unfold act in refl)
          | inr good ↦ rw (e, good) (entry ∙ unfold act in refl)
        ]
        | inr e ↦ elim (Bool-cases (same name [])) [
          | inl blank ↦ rw (e, blank) (unfold act in ground arith)
          | inr named ↦ rw (e, named) (ground (arith, typed))
        ]
      ]

  pub read_token-act :
      (token : Text) (r : Reader) → read_token to_lower token r ≡ act (token_of token) r
  unfolding read_token token_of
  read_token-act token r = elim (Option-cases (index_of token 61 0)) [
    | inr (eq, e) ↦ rw e (
        unfold read_at token_at in
        read_pair-act (trim (slice token 0 eq)) (trim (drop (suc eq) token)) r)
    | inl e ↦ rw e (
        unfold read_at token_at read_blank in
        elim (Bool-cases (same (trim token) [])) [
          | inl blank ↦ rw blank (unfold act in refl)
          | inr text ↦ rw text (unfold act in refl)
        ])
  ]

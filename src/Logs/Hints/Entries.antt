-- ===== src/Logs/Hints/Entries.antt =====
-- The entries that an annotation makes, and the last one of a container.
use openshift_console.Prelude.{
  ◌≡◌, Bool, true, false, List, [], ◌∷◌, ◌++◌, Option, none, some, if◌then◌else◌, refl, ap, sym,
  ◌∙◌, arith, Bool-cases, inl, inr, append_assoc, append-nil, map,
}
use openshift_console.Prelude.Text.{Text, same, split, index_of}
use openshift_console.Prelude.Text.Trim.{trim, trim_start, trim_end}
use openshift_console.Prelude.Text.Keys.{lookup}
use openshift_console.Logs.Parse.Entry.{ColumnSpec}
use openshift_console.Logs.Hints.{
  FormatHint, Reader, ends_current, push_column, make_hint, read_tokens, parse_hints,
  annotated_format,
}
use openshift_console.Logs.Hints.Grouping.{
  Token, white, stray, container, column, push_first, act, token_of, token_at, read_token-act,
}

-- The columns at the head of some tokens, white space passed over.
unfoldable pub columns_of : List Token → List ColumnSpec
columns_of (white ∷ ts) = columns_of ts
columns_of (column spec ∷ ts) = spec ∷ columns_of ts
columns_of _ = []

-- The columns of a container: none behind a first one that is no column.
unfoldable pub all_columns : Option (Option ColumnSpec) → List Token → List ColumnSpec
all_columns none ts = columns_of ts
all_columns (some none) ts = []
all_columns (some (some spec)) ts = spec ∷ columns_of ts

unfoldable pub entries : List Token → List (Text × FormatHint)
entries [] = []
entries (container name format first ∷ ts) =
    (name, record { format = format; columns = all_columns first ts }) ∷ entries ts
entries (_ ∷ ts) = entries ts

abbrev pub or_else : {A : Type 0} → Option A → Option A → Option A
or_else none y = y
or_else (some x) y = some x

-- The last entry of a name.
unfoldable pub last_of : List (Text × FormatHint) → Text → Option FormatHint
last_of [] name = none
last_of ((n, hint) ∷ es) name = or_else (last_of es name) (if same n name then some hint else none)

-- The newest hint, if it is current, with more columns.
unfoldable pub extended :
    Bool → List ColumnSpec → List (Text × FormatHint) → List (Text × FormatHint)
extended false specs hints = hints
extended true specs [] = []
extended true specs ((name, hint) ∷ hints) =
    (name, record hint { columns = hint.columns ++ specs }) ∷ hints

extended-nil : (b : Bool) (hints : List (Text × FormatHint)) → extended b [] hints ≡ hints
unfolding extended
extended-nil false hints = refl
extended-nil true [] = refl
extended-nil true ((name, hint) ∷ hints) =
    ap {A = List ColumnSpec} {B = List (Text × FormatHint)}
      (λ specs. (name, record hint { columns = specs }) ∷ hints) (append-nil hint.columns)

extended-push :
    (spec : ColumnSpec) (specs : List ColumnSpec) (hints : List (Text × FormatHint))
    → extended true specs (push_column spec hints) ≡ extended true (spec ∷ specs) hints
unfolding extended push_column
extended-push spec specs [] = refl
extended-push spec specs ((name, hint) ∷ hints) =
    ap {A = List ColumnSpec} {B = List (Text × FormatHint)}
      (λ all. (name, record hint { columns = all }) ∷ hints)
      (append_assoc hint.columns (spec ∷ []) specs)

unfoldable act_all : List Token → Reader → Reader
act_all [] r = r
act_all (t ∷ ts) r = act_all ts (act t r)

or_else-lookup :
    (later : Option FormatHint) (name n : Text) (hint : FormatHint)
    (hints : List (Text × FormatHint))
    → or_else later (lookup ((n, hint) ∷ hints) name)
      ≡ or_else (or_else later (if same n name then some hint else none)) (lookup hints name)
unfolding lookup
or_else-lookup none name n hint hints = ground arith
or_else-lookup (some x) name n hint hints = refl

extended-made :
    (n format : Text) (first : Option (Option ColumnSpec)) (ts : List Token) (r : Reader)
    → let made = push_first first (make_hint n format r) in
      extended made.current (columns_of ts) made.hints
      ≡ (n, record { format = format; columns = all_columns first ts }) ∷ r.hints
unfolding push_first make_hint extended all_columns push_column ends_current
extended-made n format none ts r = refl
extended-made n format (some none) ts r = refl
extended-made n format (some (some spec)) ts r = refl

module _ (name : Text) where
  -- What is found once the tokens are read, in the terms of what was read before.
  act_all-last_of :
      (ts : List Token) (r : Reader)
      → lookup (act_all ts r).hints name
        ≡ or_else
            (last_of (entries ts) name)
            (lookup (extended r.current (columns_of ts) r.hints) name)
  unfolding act_all entries last_of columns_of act ends_current
  act_all-last_of [] r = ap (λ h. lookup h name) (sym (extended-nil r.current r.hints))
  act_all-last_of (white ∷ ts) r = act_all-last_of ts r
  act_all-last_of (stray ∷ ts) r =
      act_all-last_of ts (ends_current r)
      ∙ ap (λ h. or_else (last_of (entries ts) name) (lookup h name))
          (unfold extended in sym (extended-nil r.current r.hints))
  act_all-last_of (column spec ∷ ts) r = elim (Bool-cases r.current) [
    | inl e ↦ rw e (
        act_all-last_of ts (record { hints = push_column spec r.hints; current = true })
        ∙ ap (λ h. or_else (last_of (entries ts) name) (lookup h name))
            (extended-push spec (columns_of ts) r.hints))
    | inr e ↦ rw e (
        act_all-last_of ts (record { hints = r.hints; current = false })
        ∙ ap (λ h. or_else (last_of (entries ts) name) (lookup h name)) (unfold extended in refl))
  ]
  act_all-last_of (container n format first ∷ ts) r =
      let hint : FormatHint = record { format = format; columns = all_columns first ts } in
      act_all-last_of ts (push_first first (make_hint n format r))
      ∙ ap (λ h. or_else (last_of (entries ts) name) (lookup h name))
          (extended-made n format first ts r)
      ∙ or_else-lookup (last_of (entries ts) name) name n hint r.hints
      ∙ ap
          (λ h.
            or_else (or_else (last_of (entries ts) name) (if same n name then some hint else none))
              (lookup h name))
          (sym (extended-nil r.current r.hints))

module _ (to_lower : Text → Text) where
  read_tokens-act_all :
      (tokens : List Text) (r : Reader)
      → read_tokens to_lower tokens r ≡ act_all (map (token_of to_lower) tokens) r
  unfolding read_tokens act_all
  read_tokens-act_all [] r = refl
  read_tokens-act_all (token ∷ tokens) r =
      ap (read_tokens to_lower tokens) (read_token-act to_lower token r)
      ∙ read_tokens-act_all tokens (act (token_of to_lower token) r)

  or_else-none : (x : Option FormatHint) → or_else x none ≡ x
  or_else-none none = refl
  or_else-none (some hint) = refl

  -- An annotation says of a container what the last entry of its name says: the entries are the
  -- containers with a name and a known format among the tokens between commas, each with the
  -- columns that follow it up to the first token that is neither a column nor white space. An empty
  -- annotation has no entry.
  pub annotated_format-last_of :
      (annotation name : Text)
      → annotated_format to_lower (some annotation) name
        ≡ last_of (entries (map (token_of to_lower) (split 44 annotation))) name
  unfolding annotated_format parse_hints
  annotated_format-last_of [] name =
      unfold split token_of token_at index_of entries last_of same trim trim_start trim_end in refl
  annotated_format-last_of (c ∷ s) name =
      let tokens = map (token_of to_lower) (split 44 (c ∷ s)) in
      let start : Reader = record { hints = []; current = false } in
      ap (λ r. lookup r.hints name) (read_tokens-act_all (split 44 (c ∷ s)) start)
      ∙ act_all-last_of name tokens start
      ∙ (unfold extended lookup in or_else-none (last_of (entries tokens) name))

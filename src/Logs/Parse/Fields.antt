-- ===== src/Logs/Parse/Fields.antt =====
-- Reading the fields of a record: by a flat key or a path, as text, as a level.
use openshift_console.Prelude.{
  ℕ, Bool, false, ◌&&◌, ◌||◌, not, List, [], ◌∷◌, Option, none, some, ◌==◌, if◌then◌else◌, length,
  get_elem?,
}
use openshift_console.Prelude.Text.{Text, codes, same, split, join}
use openshift_console.Prelude.Text.Digits.{is_digits, digits_value}
use openshift_console.Prelude.Text.Keys.{lookup, includes, object_members, proto}
use openshift_console.Prelude.Text.Trim.{trim}
use openshift_console.Prelude.Json.{
  Value, null, number, string, array, object, Fields, get_field, items,
}
use openshift_console.Logs.Parse.Entry.{Runtime, LogLevel, trace, debug, info, warn, error, fatal}

-- An index as it is written: no zero in front of another digit.
unfoldable pub is_index : Text → Bool
is_index [] = false
is_index (c ∷ []) = is_digits (c ∷ [])
is_index (c ∷ d ∷ s) = is_digits (c ∷ d ∷ s) && not (c == b'0')

abbrev pub level_words : List (Text × LogLevel)
level_words =
    (codes "TRACE", trace)
    ∷ (codes "FINEST", trace)
    ∷ (codes "FINER", trace)
    ∷ (codes "VERBOSE", trace)
    ∷ (codes "DEBUG", debug)
    ∷ (codes "FINE", debug)
    ∷ (codes "DBG", debug)
    ∷ (codes "INFO", info)
    ∷ (codes "INFORMATION", info)
    ∷ (codes "NOTICE", info)
    ∷ (codes "CONFIG", info)
    ∷ (codes "WARN", warn)
    ∷ (codes "WARNING", warn)
    ∷ (codes "ERROR", error)
    ∷ (codes "ERR", error)
    ∷ (codes "SEVERE", error)
    ∷ (codes "CRIT", fatal)
    ∷ (codes "CRITICAL", fatal)
    ∷ (codes "FATAL", fatal)
    ∷ (codes "ALERT", fatal)
    ∷ (codes "EMERG", fatal)
    ∷ (codes "PANIC", fatal)
    ∷ (codes "DPANIC", fatal)
    ∷ []

-- The strings among some values.
unfoldable pub strings_of : {N : Type 0} → List (Value N) → List Text
strings_of [] = []
strings_of (string s ∷ vs) = s ∷ strings_of vs
strings_of (v ∷ vs) = strings_of vs

unfoldable pub nonempty_text : Text → Option Text
nonempty_text [] = none
nonempty_text (c ∷ s) = some (c ∷ s)

unfoldable pub joined_lines : List Text → Option Text
joined_lines [] = none
joined_lines (l ∷ ls) = some (join 10 (l ∷ ls))

-- What a member lookup finds: a value of the record, a method that objects or arrays inherit, or one
-- of the two objects that they inherit from. What is not there is `none` of an option.
pub data Found (N : Type 0) : Type 0 where
  own : Value N → Found N
  method object_prototype array_prototype : Found N

-- `asStackTrace`; a missing field is `none`.
unfoldable pub as_stack_trace : {N : Type 0} → Option (Found N) → Option Text
as_stack_trace none = none
as_stack_trace (some method) = none
as_stack_trace (some object_prototype) = none
as_stack_trace (some array_prototype) = none
as_stack_trace (some (own v)) = elim v [
  | string s ↦ nonempty_text s
  | array vs ↦ joined_lines (strings_of (items vs))
  | _ ↦ none
]

-- What every object has without a member of its own.
unfoldable pub inherited : {N : Type 0} → Text → Option (Found N)
inherited segment =
    if same segment proto
    then some object_prototype
    else if includes object_members segment
    then some method
    else none

module _ {N : Type 0} (rt : Runtime N) where
  -- `record[segment]`.
  unfoldable pub object_member : Fields N → Text → Option (Found N)
  object_member fs segment = elim (get_field fs segment) [
    | some v ↦ some (own v)
    | none ↦ inherited segment
  ]

  -- The members of arrays that are not elements, for an array of a length.
  unfoldable pub array_member : ℕ → Found N → Text → Option (Found N)
  array_member n prototype segment =
      if same segment (codes "length")
      then some (own (number (rt.of_nat n)))
      else if same segment proto
      then some prototype
      else if rt.is_array_method segment || includes object_members segment
      then some method
      else none

  unfoldable pub element : List (Value N) → Text → Option (Found N)
  element vs segment = elim (get_elem? vs (digits_value 0 segment)) [
    | some v ↦ some (own v)
    | none ↦ none
  ]

  -- `cursor[segment]`, with undefined for what is no object.
  unfoldable pub member : Found N → Text → Option (Found N)
  member (own (object fs)) segment = object_member fs segment
  member (own (array vs)) segment =
      if is_index segment
      then element (items vs) segment
      else array_member (length (items vs)) array_prototype segment
  member (own v) segment = none
  member method segment = none
  member object_prototype segment =
      if same segment proto then some (own null) else inherited segment
  member array_prototype segment = array_member 0 object_prototype segment

  unfoldable pub walk : Option (Found N) → List Text → Option (Found N)
  walk cursor [] = cursor
  walk none (segment ∷ path) = none
  walk (some v) (segment ∷ path) = walk (member v segment) path

  -- `path in record` is true of what every object has, too.
  unfoldable pub pick : Fields N → Text → Option (Found N)
  pick fs path = elim (object_member fs path) [
    | some v ↦ some v
    | none ↦ walk (some (own (object fs))) (split b'.' path)
  ]

  -- A string that is not empty, or a finite number.
  unfoldable pub text_of : Option (Found N) → Option Text
  text_of none = none
  text_of (some method) = none
  text_of (some object_prototype) = none
  text_of (some array_prototype) = none
  text_of (some (own v)) = elim v [
    | string s ↦ nonempty_text s
    | number n ↦ (if rt.is_finite n then some (rt.show n) else none)
    | _ ↦ none
  ]

  unfoldable pub first_string : Fields N → List Text → Option Text
  first_string fs [] = none
  first_string fs (path ∷ paths) =
      let rest = first_string fs paths in
      elim (text_of (pick fs path)) [ none ↦ rest | some s ↦ some s ]

  unfoldable pub first_stack : Fields N → List Text → Option Text
  first_stack fs [] = none
  first_stack fs (path ∷ paths) =
      let rest = first_stack fs paths in
      elim (as_stack_trace (pick fs path)) [ none ↦ rest | some s ↦ some s ]

  -- The scale by the magnitude: syslog's up to 7, and above it the one that ascends by tens.
  unfoldable pub numeric_level : N → LogLevel
  numeric_level n =
      if rt.at_most n 7
      then (if rt.at_most n 2
          then fatal
          else if rt.equals n 3
          then error
          else if rt.equals n 4
          then warn
          else if rt.at_most n 6
          then info
          else debug)
      else if rt.at_most n 10
      then trace
      else if rt.at_most n 20
      then debug
      else if rt.at_most n 30
      then info
      else if rt.at_most n 40
      then warn
      else if rt.at_most n 50
      then error
      else fatal

  unfoldable pub finite_number : Text → Option N
  finite_number s = elim (rt.to_number s) [
    | none ↦ none
    | some n ↦ (if rt.is_finite n then some n else none)
  ]

  unfoldable pub normalize_level : Option Text → Option LogLevel
  normalize_level none = none
  normalize_level (some value) = elim (lookup level_words (rt.to_upper (trim value))) [
    | some level ↦ some level
    | none ↦ elim (finite_number value) [ none ↦ none | some n ↦ some (numeric_level n) ]
  ]

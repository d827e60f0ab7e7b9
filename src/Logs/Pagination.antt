-- ===== src/Logs/Pagination.antt =====
-- plugins/logging/src/logs/pagination.ts: picking the earlier lines out of a larger page.
pub mod Join
pub mod Journal
mod Tests
use openshift_console.Prelude.{
  ℕ, zero, suc, ◌+◌, ◌-◌, Bool, true, false, ◌&&◌, not, List, [], ◌∷◌, Option, none, some, leb, ltb,
  ◌==◌, if◌then◌else◌, length, get_or, take,
}
use mathlib.Core.List.{reverse}
use openshift_console.Prelude.Json.{Value, object, string, get_field}
use openshift_console.Prelude.Text.{Text, codes, same, split, front_parts, last_part}

abbrev pub join_search_slack : ℕ
join_search_slack = 2000

-- Whether the line at an index is the anchor; an index below 0 is `none`.
unfoldable pub is_anchor : List Text → Text → Option ℕ → Bool
is_anchor fetched line none = false
is_anchor fetched line (some i) = ltb i (length fetched) && same (get_or fetched i []) line

-- The indices that are looked at for an offset.
unfoldable pub candidates : ℕ → ℕ → List (Option ℕ)
candidates expected offset =
    if offset == 0
    then some expected ∷ []
    else (if leb offset expected then some (expected - offset) else none)
      ∷ some (expected + offset)
      ∷ []

unfoldable pub first_anchor : (Option ℕ → Bool) → List (Option ℕ) → Option ℕ
first_anchor test [] = none
first_anchor test (i ∷ is) = if test i then i else first_anchor test is

-- The search outward, with `n` offsets to go.
unfoldable pub search_join : (Option ℕ → Bool) → ℕ → ℕ → ℕ → Option ℕ
search_join test expected zero offset = none
search_join test expected (suc n) offset =
    let rest = search_join test expected n (suc offset) in
    elim (first_anchor test (candidates expected offset)) [ none ↦ rest | some i ↦ some i ]

unfoldable pub join_index : List Text → Option Text → ℕ → ℕ
join_index fetched none current_length = length fetched - current_length
join_index fetched (some line) current_length =
    let expected = length fetched - current_length in
    elim (search_join (is_anchor fetched line) expected (suc join_search_slack) 0) [
      | none ↦ expected
      | some i ↦ i
    ]

unfoldable pub earlier_pod_lines : List Text → Option Text → ℕ → List Text
earlier_pod_lines fetched current_first_line current_length =
    take (join_index fetched current_first_line current_length) fetched

-- `cursorOf` on what the parser makes of a line; `none` where the parser throws.
unfoldable pub cursor_of : {N : Type 0} → (Text → Option (Value N)) → Text → Option Text
cursor_of parse line = elim (parse line) [
  | none ↦ none
  | some v ↦ elim v [
    | object fs ↦ elim (get_field fs (codes "__CURSOR")) [
      | none ↦ none
      | some c ↦ elim c [ string s ↦ some s | _ ↦ none ]
    ]
    | _ ↦ none
  ]
]

-- `null` on either side of `!==`.
unfoldable pub same_cursor : Option Text → Option Text → Bool
same_cursor none none = true
same_cursor none (some d) = false
same_cursor (some c) none = false
same_cursor (some c) (some d) = same c d

-- The lines that are kept, for a reading of their cursors.
unfoldable pub keep_entries : (Text → Option Text) → Option Text → List Text → List Text
keep_entries cursor anchor [] = []
keep_entries cursor anchor (line ∷ lines) =
    let rest = keep_entries cursor anchor lines in
    if not (same line []) && not (same_cursor (cursor line) anchor) then line ∷ rest else rest

unfoldable pub earlier_journal_lines :
    {N : Type 0} → (Text → Option (Value N)) → List Text → Option Text → List Text
earlier_journal_lines parse fetched anchor = reverse (keep_entries (cursor_of parse) anchor fetched)

unfoldable pub split_lines : Text → List Text
split_lines body =
    let lines = split 10 body in if same (last_part lines) [] then front_parts lines else lines

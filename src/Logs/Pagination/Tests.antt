-- ===== src/Logs/Pagination/Tests.antt =====
-- Concrete pages of a pod's log and of a journal.
use openshift_console.Prelude.{
  ℕ, ◌≡◌, ◌++◌, List, [], ◌∷◌, Option, none, some, refl, arith, if◌then◌else◌,
}
use mathlib.Core.List.{reverse}
use openshift_console.Prelude.Json.{Value, object, string, field, end, get_field}
use openshift_console.Prelude.Text.{Text, codes, same}
use openshift_console.Logs.Buffer.Read.{text_of_lines}
use openshift_console.Logs.Pagination.{
  cursor_of, earlier_pod_lines, earlier_journal_lines, split_lines, same_cursor,
}
use openshift_console.Logs.Pagination.Join.{earlier_pod_lines-exact}
use openshift_console.Logs.Pagination.Journal.{
  earlier_journal_lines-exact, split_lines-text_of_lines,
}

abbrev page_before : List Text
page_before = codes "a" ∷ codes "b" ∷ []

abbrev page_after : List Text
page_after = codes "d" ∷ codes "e" ∷ []

earlier_pod_lines-exact_example :
    earlier_pod_lines (page_before ++ codes "c" ∷ page_after) (some (codes "c")) 1 ≡ page_before
earlier_pod_lines-exact_example =
    earlier_pod_lines-exact page_before page_after (codes "c") 1
      (unfold same in refl, (unfold same in refl, tt))
      (unfold same in refl, (unfold same in refl, tt)) (omega arith, omega arith)

-- A parser that reads every line but `x` as an object with the line as its cursor.
abbrev parse_line : Text → Option (Value ℕ)
parse_line line =
    if same line (codes "x")
    then none
    else some (object (field (codes "__CURSOR") (string line) end))

earlier_journal_lines-exact_example :
    earlier_journal_lines parse_line
      (codes "c" ∷ reverse (codes "x" ∷ codes "b" ∷ []))
      (some (codes "c"))
    ≡ codes "x" ∷ codes "b" ∷ []
earlier_journal_lines-exact_example =
    earlier_journal_lines-exact parse_line (codes "x" ∷ codes "b" ∷ []) (codes "c") (codes "c")
      (unfold cursor_of get_field same in refl)
      (
        (unfold same in refl, unfold cursor_of get_field same_cursor same in refl),
        ((unfold same in refl, unfold cursor_of get_field same_cursor same in refl), tt),
      )

split_lines-text_of_lines_example : split_lines (text_of_lines page_before) ≡ page_before
split_lines-text_of_lines_example =
    split_lines-text_of_lines page_before ((refl, tt), ((refl, tt), tt))

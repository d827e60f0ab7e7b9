-- ===== src/Logs/Buffer/Read.antt =====
-- plugins/logging/src/logs/buffer.ts: the getters, `lineAt` and `text`.
use openshift_console.Prelude.{
  ℕ, zero, suc, ◌+◌, ◌-◌, List, [], ◌∷◌, ◌++◌, Option, none, some, ltb, if◌then◌else◌, length,
  get_or,
}
use openshift_console.Prelude.Int.{ℤ, pos, negsuc, ◌+ℤ◌, ◌-ℤ◌}
use openshift_console.Prelude.Text.{Text, slice, join}
use openshift_console.Logs.Buffer.{LogBuffer, page_text, newline}

unfoldable pub end_seq : LogBuffer → ℤ
end_seq b = b.base_seq +ℤ pos (b.used - b.base)

-- The getter `length`.
unfoldable pub line_count : LogBuffer → ℕ
line_count b = b.used - b.base

total_length : List Text → ℕ → ℕ
total_length [] total = total
total_length (page ∷ pages) total = total_length pages (total + length page)

unfoldable pub char_length : LogBuffer → ℕ
unfolding total_length
char_length b = total_length b.pages 0

-- The line in the cell at `i`.
unfoldable pub cell_text : LogBuffer → ℕ → Text
cell_text b i =
    slice (page_text b (get_or b.page_of i 0)) (get_or b.start_at i 0) (get_or b.end_at i 0)

-- `i < base` is a negative offset from `base_seq`.
unfoldable pub line_at : LogBuffer → ℤ → Option Text
line_at b seq = elim (seq -ℤ b.base_seq) [
  | pos k ↦ if ltb (b.base + k) b.used then some (cell_text b (b.base + k)) else none
  | negsuc _ ↦ none
]

-- The loop of `text`, with `n` numbers to go.
unfoldable pub collect : LogBuffer → ℕ → ℤ → List Text
collect b zero seq = []
collect b (suc n) seq =
    let rest = collect b n (seq +ℤ pos 1) in
    elim (line_at b seq) [ none ↦ rest | some line ↦ line ∷ rest ]

unfoldable pub text_of_lines : List Text → Text
text_of_lines [] = []
text_of_lines (l ∷ ls) = join newline (l ∷ ls) ++ newline ∷ []

-- `text`: there are `line_count` numbers from `firstSeq` to `endSeq`.
unfoldable pub buffer_text : LogBuffer → Text
buffer_text b = text_of_lines (collect b (line_count b) b.base_seq)

-- ===== src/Logs/Buffer/Tests.antt =====
-- Runs of the buffer, and its theorems at inputs that they apply to.
use openshift_console.Prelude.{
  ◌≡◌, ◌≢◌, ◌⊎◌, refl, List, [], ◌∷◌, ◌++◌, none, some, length, get_elem?, suc,
}
use openshift_console.Prelude.Int.{pos, ◌+ℤ◌, ◌-ℤ◌}
use openshift_console.Prelude.Text.{Text, codes, index_of, find, join}
use openshift_console.Prelude.Arrays.{copy_to_front, write_at}
use openshift_console.Logs.Buffer.{
  LogBuffer, LogBufferOptions, new_buffer, append, flush_partial, clear, absorb, index_lines,
  push_line, make_room, compact_or_grow, compact, grow, store_line, trim_end, seal, new_page, evict,
  release_all, release,
}
use openshift_console.Logs.Buffer.Read.{
  line_at, buffer_text, text_of_lines, line_count, end_seq, collect, cell_text,
}
use openshift_console.Logs.Buffer.Front.{
  prepend, place_extents, reserve_front, store_extents, find_extents,
}
use openshift_console.Logs.Buffer.View.{lines, partial, IsValid}
use openshift_console.Logs.Buffer.Spec.{whole_lines, remainder, trim_cr}
use openshift_console.Logs.Buffer.Stream.{Gains, append-Gains, flush_partial-Gains}
use openshift_console.Logs.Buffer.Chunks.{append-append}
use openshift_console.Logs.Buffer.Lookup.{readers-lines}
use openshift_console.Logs.Buffer.Scan.{front_lines}
use openshift_console.Logs.Buffer.Prepend.{Fronted}
use openshift_console.Logs.Buffer.History.{
  new_buffer-IsValid, prepend-Fronted, line_at-prepend, clear-IsValid,
}
use openshift_console.Logs.Buffer.Session.{
  Call, appends, prepends, flushes, perform_all, session-IsValid,
}

-- Keeps two lines.
abbrev options : LogBufferOptions
options = record { max_lines = some 2; page_size = none }

abbrev start : LogBuffer
start = new_buffer options

start-IsValid : IsValid start
start-IsValid = (new_buffer-IsValid options).0

-- Three lines and the beginning of a fourth.
abbrev chunk : Text
chunk = codes "\r\nb\nc\nd"

-- The text for download, computed.
download : LogBuffer → Text
unfolding new_buffer append absorb index_lines push_line make_room compact_or_grow compact grow
    store_line trim_end seal new_page evict release_all release flush_partial clear buffer_text
    collect line_count line_at cell_text text_of_lines prepend place_extents reserve_front
    store_extents find_extents index_of find join copy_to_front write_at ◌+ℤ◌ ◌-ℤ◌
download b = buffer_text b

append_run : download (append start (b'a' ∷ chunk)) ≡ codes "b\nc\n"
unfolding download
append_run = refl

flush_run : download (flush_partial (append start (b'a' ∷ chunk))) ≡ codes "c\nd\n"
unfolding download
flush_run = refl

-- The older lines stand in front, and blank ones are dropped.
prepend_run :
    download (prepend (append start (b'a' ∷ chunk)) (codes "x\n\ny\n")).0 ≡ codes "x\ny\nb\nc\n"
unfolding download
prepend_run = refl

append-Gains_example :
    Gains start
      (append start (b'a' ∷ chunk))
      (whole_lines (partial start ++ b'a' ∷ chunk))
      (remainder (partial start ++ b'a' ∷ chunk))
append-Gains_example = append-Gains start b'a' chunk start-IsValid

-- A buffer that holds two lines and the beginning of one.
abbrev held : LogBuffer
held = append start (b'a' ∷ chunk)

held-IsValid : IsValid held
held-IsValid = (append-Gains start b'a' chunk start-IsValid).valid

flush_partial-Gains_example :
    ((partial held ≡ []) × (flush_partial held ≡ held))
    ⊎ ((partial held ≢ []) × Gains held (flush_partial held) (trim_cr (partial held) ∷ []) [])
flush_partial-Gains_example = flush_partial-Gains held held-IsValid

append-append_example :
    (lines (append (append start (b'a' ∷ chunk)) (b'e' ∷ codes "\n"))
      ≡ lines (append start (b'a' ∷ (chunk ++ b'e' ∷ codes "\n"))))
    × (partial (append (append start (b'a' ∷ chunk)) (b'e' ∷ codes "\n"))
        ≡ partial (append start (b'a' ∷ (chunk ++ b'e' ∷ codes "\n"))))
    × ((append (append start (b'a' ∷ chunk)) (b'e' ∷ codes "\n")).base_seq
        ≡ (append start (b'a' ∷ (chunk ++ b'e' ∷ codes "\n"))).base_seq)
append-append_example = append-append start b'a' chunk b'e' (codes "\n") start-IsValid

readers-lines_example :
    (line_at held (held.base_seq +ℤ pos 1) ≡ get_elem? (lines held) 1)
    × (line_at held (held.base_seq -ℤ pos (suc 1)) ≡ none)
    × (buffer_text held ≡ text_of_lines (lines held))
    × (line_count held ≡ length (lines held))
    × (end_seq held ≡ held.base_seq +ℤ pos (length (lines held)))
readers-lines_example = readers-lines held 1 held-IsValid

prepend-Fronted_example :
    Fronted held (prepend held (codes "x\n\ny\n")).0 (front_lines (codes "x\n\ny\n"))
    × ((prepend held (codes "x\n\ny\n")).1 ≡ length (front_lines (codes "x\n\ny\n")))
prepend-Fronted_example = prepend-Fronted held (codes "x\n\ny\n") held-IsValid

line_at-prepend_example :
    line_at (prepend held (codes "x\ny\n")).0 (held.base_seq +ℤ pos 1)
    ≡ line_at held (held.base_seq +ℤ pos 1)
line_at-prepend_example = line_at-prepend held (codes "x\ny\n") 1 held-IsValid

clear-IsValid_example :
    IsValid (clear held)
    × (lines (clear held) ≡ [])
    × (partial (clear held) ≡ [])
    × ((clear held).base_seq ≡ pos 0)
    × ((clear held).gen ≡ suc held.gen)
    × ((clear held).max_lines ≡ held.max_lines)
clear-IsValid_example = clear-IsValid held held-IsValid

new_buffer-IsValid_example :
    IsValid (new_buffer options)
    × (lines (new_buffer options) ≡ [])
    × (partial (new_buffer options) ≡ [])
new_buffer-IsValid_example = new_buffer-IsValid options

abbrev calls : List Call
calls = appends (b'a' ∷ chunk) ∷ prepends (codes "x\n") ∷ flushes ∷ []

session-IsValid_example : IsValid (perform_all (new_buffer options) calls)
session-IsValid_example = session-IsValid options calls

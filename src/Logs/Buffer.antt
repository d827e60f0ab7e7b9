-- ===== src/Logs/Buffer.antt =====
-- plugins/logging/src/logs/buffer.ts: the `LogBuffer` class. A method returns the new buffer.
-- The Int32Array cells are numbers that do not wrap around.
pub mod Read
pub mod Front
pub mod View
pub mod Extents
pub mod Room
pub mod Push
pub mod Spec
pub mod Index
pub mod Evict
pub mod Append
pub mod Seal
pub mod Stream
pub mod Chunks
pub mod Lookup
pub mod Reserve
pub mod Fill
pub mod Prepend
pub mod History
pub mod Session
mod Tests
pub mod Scan
use openshift_console.Prelude.{
  ℕ, zero, suc, ◌+◌, ◌-◌, ◌*◌, ◌^◌, ◌&&◌, not, List, [], ◌∷◌, ◌++◌, Option, none, some, ltb, leb,
  ◌==◌, if◌then◌else◌, length, get_or, set, replicate,
}
use openshift_console.Prelude.Int.{ℤ, pos, ◌+ℤ◌}
use openshift_console.Prelude.Text.{Text, index_of}
use openshift_console.Prelude.Arrays.{write_at, copy_to_front}
use Prim.Native.Nat.{max}

abbrev pub default_page_size : ℕ
default_page_size = 2 ^ 20

abbrev pub default_max_lines : ℕ
default_max_lines = 200000

abbrev pub initial_capacity : ℕ
initial_capacity = 4096

abbrev pub newline : ℕ
newline = 10

abbrev pub carriage_return : ℕ
carriage_return = 13

pub record LogBufferOptions : Type 0 where
  pub max_lines : Option ℕ
  pub page_size : Option ℕ

pub record LogBuffer : Type 0 where
  pub max_lines : ℕ
  pub page_size : ℕ
  pub pages : List Text
  pub page_refs : List ℕ
  pub tail_page : ℕ
  pub page_of : List ℕ
  pub start_at : List ℕ
  pub end_at : List ℕ
  pub base : ℕ
  pub used : ℕ
  pub base_seq : ℤ
  pub line_start : ℕ
  pub scan_from : ℕ
  pub gen : ℕ

-- `??`
abbrev otherwise : Option ℕ → ℕ → ℕ
otherwise none d = d
otherwise (some n) d = n

unfoldable pub new_buffer : LogBufferOptions → LogBuffer
new_buffer options = record {
  max_lines = max 1 (otherwise options.max_lines default_max_lines);
  page_size = max 1024 (otherwise options.page_size default_page_size);
  pages = [] ∷ [];
  page_refs = 0 ∷ [];
  tail_page = 0;
  page_of = replicate initial_capacity 0;
  start_at = replicate initial_capacity 0;
  end_at = replicate initial_capacity 0;
  base = 0;
  used = 0;
  base_seq = pos 0;
  line_start = 0;
  scan_from = 0;
  gen = 0;
}

-- `this.pages[page]`.
abbrev pub page_text : LogBuffer → ℕ → Text
page_text b page = get_or b.pages page []

unfoldable pub compact : LogBuffer → LogBuffer
compact b = record b {
  page_of = copy_to_front b.page_of b.base b.used;
  start_at = copy_to_front b.start_at b.base b.used;
  end_at = copy_to_front b.end_at b.base b.used;
  used = b.used - b.base;
  base = 0;
}

unfoldable pub grow : LogBuffer → LogBuffer
grow b = record b {
  page_of = write_at (replicate (length b.page_of * 2) 0) b.page_of 0;
  start_at = write_at (replicate (length b.page_of * 2) 0) b.start_at 0;
  end_at = write_at (replicate (length b.page_of * 2) 0) b.end_at 0;
}

unfoldable pub compact_or_grow : LogBuffer → LogBuffer
compact_or_grow b = if ltb 0 b.base then compact b else grow b

-- The guard of `pushLine` on the arrays' capacity.
unfoldable pub make_room : LogBuffer → LogBuffer
make_room b = if b.used == length b.page_of then compact_or_grow b else b

-- `end` without a carriage return before it.
unfoldable pub trim_end : Text → ℕ → ℕ → ℕ
trim_end text start end =
    if ltb start end && (get_or text (end - 1) 0 == carriage_return) then end - 1 else end

-- The writes of `pushLine`.
unfoldable pub store_line : LogBuffer → ℕ → ℕ → ℕ → LogBuffer
store_line b page start end = record b {
  page_of = set b.page_of b.used page;
  start_at = set b.start_at b.used start;
  end_at = set b.end_at b.used end;
  used = suc b.used;
  page_refs = set b.page_refs page (get_or b.page_refs page 0 + 1);
}

unfoldable pub push_line : LogBuffer → ℕ → ℕ → ℕ → LogBuffer
push_line b page start end =
    store_line (make_room b) page start (trim_end (page_text b page) start end)

-- `newPage`, without the number that it returns: that is `length b.pages`.
unfoldable pub new_page : LogBuffer → Text → LogBuffer
new_page b text = record b { pages = b.pages ++ text ∷ []; page_refs = b.page_refs ++ 0 ∷ [] }

-- One round of the loop in `evict`, for the line at `i`.
unfoldable pub release : LogBuffer → ℕ → LogBuffer
release b i =
    let page = get_or b.page_of i 0 in
    let refs = get_or b.page_refs page 0 - 1 in
    record b {
      page_refs = set b.page_refs page refs;
      pages = if (refs == 0) && not (page == b.tail_page) then set b.pages page [] else b.pages;
    }

-- The loop of `evict`: `n` rounds from `i` on.
unfoldable pub release_all : ℕ → ℕ → LogBuffer → LogBuffer
release_all zero i b = b
release_all (suc n) i b = release_all n (suc i) (release b i)

-- Subtraction stops at 0 where the source tests `excess <= 0`.
unfoldable pub evict : LogBuffer → LogBuffer
evict b =
    let excess = b.used - b.base - b.max_lines in
    let b' = release_all excess b.base b in
    if excess == 0
    then b
    else record b' { base = b.base + excess; base_seq = b.base_seq +ℤ pos excess }

-- The loop of `append`: `none` of `index_of` ends it. Each round consumes a character of `text`.
unfoldable pub index_lines : ℕ → Text → ℕ → LogBuffer → LogBuffer
index_lines zero text from b = b
index_lines (suc fuel) text from b = elim (index_of text newline from) [
  | none ↦ b
  | some nl ↦
      index_lines fuel text (suc nl)
        (record (push_line b b.tail_page b.line_start nl) { line_start = suc nl })
]

-- `append` after the loop: the page is sealed only on a line boundary.
unfoldable pub seal : LogBuffer → LogBuffer
seal b =
    let text = page_text b b.tail_page in
    if leb b.page_size (length text) && (b.line_start == length text)
    then record (new_page b []) { tail_page = length b.pages; line_start = 0; scan_from = 0 }
    else b

-- `append` up to the end of its loop.
unfoldable pub absorb : LogBuffer → Text → LogBuffer
absorb b chunk =
    let text = page_text b b.tail_page ++ chunk in
    let grown = record b { pages = set b.pages b.tail_page text } in
    let indexed = index_lines (suc (length text)) text b.scan_from grown in
    record indexed { scan_from = length text }

unfoldable pub append : LogBuffer → Text → LogBuffer
append b [] = b
append b (c ∷ chunk) = evict (seal (absorb b (c ∷ chunk)))

unfoldable pub flush_partial : LogBuffer → LogBuffer
flush_partial b =
    let text = page_text b b.tail_page in
    let pushed = push_line b b.tail_page b.line_start (length text) in
    if ltb b.line_start (length text) then evict (record pushed { line_start = length text }) else b

unfoldable pub clear : LogBuffer → LogBuffer
clear b = record b {
  pages = [] ∷ [];
  page_refs = 0 ∷ [];
  tail_page = 0;
  base = 0;
  used = 0;
  base_seq = pos 0;
  line_start = 0;
  scan_from = 0;
  gen = b.gen + 1;
}

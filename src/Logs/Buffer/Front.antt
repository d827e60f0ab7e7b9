-- ===== src/Logs/Buffer/Front.antt =====
-- plugins/logging/src/logs/buffer.ts: `prepend` and `reserveFront`.
use Prim.Native.Nat.{max}
use openshift_console.Prelude.{
  ℕ, zero, suc, ◌+◌, ◌-◌, ◌/◌, true, false, List, [], ◌∷◌, none, some, ltb, leb, ◌==◌,
  if◌then◌else◌, length, get_or, set, replicate,
}
use openshift_console.Prelude.Int.{pos, ◌-ℤ◌}
use openshift_console.Prelude.Text.{Text, index_of}
use openshift_console.Prelude.Arrays.{subarray, write_at}
use openshift_console.Logs.Buffer.{LogBuffer, newline, trim_end, new_page}

-- The scan of `prepend`, with each extent as a pair.
unfoldable pub find_extents : ℕ → Text → ℕ → List (ℕ × ℕ)
find_extents zero chunk from = []
find_extents (suc fuel) chunk from = elim (ltb from (length chunk)) [
  | false ↦ []
  | true ↦ elim (index_of chunk newline from) [
    | none ↦ (from, length chunk) ∷ []
    | some nl ↦
        let rest = find_extents fuel chunk (suc nl) in
        if ltb from nl then (from, nl) ∷ rest else rest
  ]
]

unfoldable pub reserve_front : LogBuffer → ℕ → LogBuffer
reserve_front b count =
    let live = b.used - b.base in
    let gap = max count (b.max_lines / 4) in
    let capacity = max (length b.page_of) (gap + live + 1) in
    if leb count b.base then b else record b {
      page_of = write_at (replicate capacity 0) (subarray b.page_of b.base b.used) gap;
      start_at = write_at (replicate capacity 0) (subarray b.start_at b.base b.used) gap;
      end_at = write_at (replicate capacity 0) (subarray b.end_at b.base b.used) gap;
      base = gap;
      used = gap + live;
    }

-- The second loop of `prepend`: the extents go to the cells from `target` on.
unfoldable pub store_extents : Text → ℕ → List (ℕ × ℕ) → ℕ → LogBuffer → LogBuffer
store_extents chunk page [] target b = b
store_extents chunk page ((start, end) ∷ rest) target b =
    store_extents chunk page rest (suc target) (record b {
      page_of = set b.page_of target page;
      start_at = set b.start_at target start;
      end_at = set b.end_at target (trim_end chunk start end);
    })

-- `prepend` once the extents are known. `end > from` holds of each, so `trim_end` makes the test.
unfoldable pub place_extents : LogBuffer → Text → List (ℕ × ℕ) → LogBuffer
place_extents b chunk extents =
    let page = length b.pages in
    let count = length extents in
    let room = reserve_front (new_page b chunk) count in
    let stored = store_extents chunk page extents (room.base - count) room in
    if count == 0 then new_page b chunk else record stored {
      page_refs = set stored.page_refs page (get_or stored.page_refs page 0 + count);
      base = room.base - count;
      base_seq = room.base_seq -ℤ pos count;
    }

unfoldable pub prepend : LogBuffer → Text → LogBuffer × ℕ
prepend b [] = (b, 0)
prepend b (c ∷ chunk) =
    let extents = find_extents (suc (length (c ∷ chunk))) (c ∷ chunk) 0 in
    (place_extents b (c ∷ chunk) extents, length extents)

-- ===== src/Logs/Buffer/Room.antt =====
-- Reallocation keeps the live window: `compactOrGrow` and the guard of `pushLine`.
use openshift_console.Prelude.{
  ℕ, ◌-◌, ◌*◌, ◌≤◌, ◌<◌, ◌≡◌, List, length, replicate, ltb, ltb→lt, ◌==◌, arith, refl, ◌∙◌,
  length-replicate, Bool-cases, inl, inr,
}
use openshift_console.Prelude.Arrays.{
  subarray, write_at, copy_to_front, length-write_at, subarray-write_at, length-subarray,
  subarray-append,
}
use openshift_console.Logs.Buffer.{LogBuffer, compact, grow, compact_or_grow, make_room}
use openshift_console.Logs.Buffer.View.{live, IsStored}

-- Everything but the arrays and the window on them is kept, and the window shows the same extents.
pub record IsMoved (b b' : LogBuffer) : Type 0 where
  pub stored : IsStored b'
  pub same_live : live b' ≡ live b
  pub same_count : b'.used - b'.base ≡ b.used - b.base
  pub same_pages : b'.pages ≡ b.pages
  pub same_refs : b'.page_refs ≡ b.page_refs
  pub same_tail : b'.tail_page ≡ b.tail_page
  pub same_max : b'.max_lines ≡ b.max_lines
  pub same_seq : b'.base_seq ≡ b.base_seq
  pub same_start : b'.line_start ≡ b.line_start
  pub same_scan : b'.scan_from ≡ b.scan_from
  pub same_size : b'.page_size ≡ b.page_size

module _ (a : List ℕ) (from to : ℕ) (h : from ≤ to) (k : to ≤ length a) where
  length-copy_to_front : length (copy_to_front a from to) ≡ length a
  unfolding copy_to_front
  length-copy_to_front =
      length-write_at a (subarray a from to) 0 (omega (arith, length-subarray a from to h k))

  subarray-copy_to_front : subarray (copy_to_front a from to) 0 (to - from) ≡ subarray a from to
  unfolding copy_to_front
  subarray-copy_to_front =
      subarray-write_at a (subarray a from to) 0 (to - from)
        (omega (arith, length-subarray a from to h k))
        (omega (arith, length-subarray a from to h k))

module _ (a : List ℕ) (n : ℕ) (e : length a ≡ n) where
  length-doubled : length (write_at (replicate (n * 2) 0) a 0) ≡ n * 2
  length-doubled =
      length-write_at (replicate (n * 2) 0) a 0 (omega (arith, length-replicate {A = ℕ} (n * 2) 0))
      ∙ length-replicate {A = ℕ} (n * 2) 0

  subarray-doubled :
      (from to : ℕ)
      → from ≤ to
      → to ≤ n
      → subarray (write_at (replicate (n * 2) 0) a 0) from to ≡ subarray a from to
  unfolding write_at
  subarray-doubled from to h k = subarray-append a _ from to (omega arith) h

abbrev window : LogBuffer → List ℕ → List ℕ
window b a = subarray a b.base b.used

-- A move is made of its arrays: it is enough that the windows and the lengths fit.
module _ (b b' : LogBuffer) (v : IsStored b) where
  live-moved :
      window b' b'.page_of ≡ window b b.page_of
      → window b' b'.start_at ≡ window b b.start_at
      → window b' b'.end_at ≡ window b b.end_at
      → live b' ≡ live b
  unfolding live
  live-moved p s e = cc

-- The arrays' lengths and the window are all that a move has to show.
module _ (b b' : LogBuffer) (v : IsStored b) (n : ℕ) where
  pub IsMoved-intro :
      (length b'.page_of ≡ n) × (length b'.start_at ≡ n) × (length b'.end_at ≡ n)
      → length b.page_of ≤ n
      → (b'.base ≤ b'.used) × (b'.used ≤ n)
      → live b' ≡ live b
      → b'.used - b'.base ≡ b.used - b.base
      → (b'.pages ≡ b.pages)
        × (b'.page_refs ≡ b.page_refs)
        × (b'.tail_page ≡ b.tail_page)
        × (b'.max_lines ≡ b.max_lines)
      → (b'.base_seq ≡ b.base_seq)
        × (b'.line_start ≡ b.line_start)
        × (b'.scan_from ≡ b.scan_from)
        × (b'.page_size ≡ b.page_size)
      → IsMoved b b'
  IsMoved-intro (lp, ls, le) grown (o, i) same count (pages, refs, tail, most) (seq, st, sc, sz) =
      record {
        stored = record {
          starts = omega arith;
          ends = omega arith;
          has_cells = omega (arith, v.has_cells);
          ordered = o;
          in_cells = omega arith;
          counters = rw (pages, refs) v.counters;
          has_tail = rw (pages, tail) v.has_tail;
          keeps = rw most v.keeps;
          fits = rw (same, pages) v.fits;
          counted = rw (same, refs) v.counted;
        };
        same_live = same;
        same_count = count;
        same_pages = pages;
        same_refs = refs;
        same_tail = tail;
        same_max = most;
        same_seq = seq;
        same_start = st;
        same_scan = sc;
        same_size = sz;
      }

module _ (b : LogBuffer) (v : IsStored b) where
  live-compact : live (compact b) ≡ live b
  unfolding compact
  live-compact =
      live-moved b (compact b) v
        (subarray-copy_to_front b.page_of b.base b.used v.ordered v.in_cells)
        (subarray-copy_to_front b.start_at b.base b.used v.ordered (omega arith))
        (subarray-copy_to_front b.end_at b.base b.used v.ordered (omega arith))

  live-grow : live (grow b) ≡ live b
  unfolding grow
  live-grow =
      live-moved b (grow b) v (subarray-doubled b.page_of _ refl b.base b.used v.ordered v.in_cells)
        (subarray-doubled b.start_at _ v.starts b.base b.used v.ordered v.in_cells)
        (subarray-doubled b.end_at _ v.ends b.base b.used v.ordered v.in_cells)

  compact-IsMoved : IsMoved b (compact b)
  unfolding compact
  compact-IsMoved =
      IsMoved-intro b (compact b) v (length b.page_of)
        (
          length-copy_to_front b.page_of b.base b.used v.ordered v.in_cells,
          length-copy_to_front b.start_at b.base b.used v.ordered (omega arith) ∙ v.starts,
          length-copy_to_front b.end_at b.base b.used v.ordered (omega arith) ∙ v.ends,
        )
        (omega arith) (omega arith, omega arith) live-compact (omega arith) (refl, refl, refl, refl)
        (refl, refl, refl, refl)

  grow-IsMoved : IsMoved b (grow b)
  unfolding grow
  grow-IsMoved =
      IsMoved-intro b (grow b) v (length b.page_of * 2)
        (
          length-doubled b.page_of _ refl,
          length-doubled b.start_at _ v.starts,
          length-doubled b.end_at _ v.ends,
        )
        (omega arith) (omega arith, omega arith) live-grow refl (refl, refl, refl, refl)
        (refl, refl, refl, refl)

  -- After `compactOrGrow` on full arrays there is a free cell behind the window.
  compact_or_grow_lem :
      b.used ≡ length b.page_of
      → IsMoved b (compact_or_grow b)
        × ((compact_or_grow b).used < length (compact_or_grow b).page_of)
  unfolding compact_or_grow
  compact_or_grow_lem full = elim (Bool-cases (ltb 0 b.base)) [
    | inl freed ↦ rw freed (
      compact-IsMoved,
      unfold compact in
          omega (
            arith,
            full,
            v.has_cells,
            ltb→lt 0 b.base freed,
            length-copy_to_front b.page_of b.base b.used v.ordered v.in_cells,
          ),
    )
    | inr none_freed ↦ rw none_freed (
      grow-IsMoved,
      unfold grow in omega (arith, full, v.has_cells, length-doubled b.page_of _ refl),
    )
  ]

  pub make_room_lem : IsMoved b (make_room b) × ((make_room b).used < length (make_room b).page_of)
  unfolding make_room
  make_room_lem = elim (Bool-cases (b.used == length b.page_of)) [
    | inl full ↦ rw full (compact_or_grow_lem (ground arith))
    | inr room ↦ rw room (
      IsMoved-intro b b v (length b.page_of) (refl, v.starts, v.ends) (omega arith)
          (v.ordered, v.in_cells) refl refl (refl, refl, refl, refl) (refl, refl, refl, refl),
      ground arith,
    )
  ]

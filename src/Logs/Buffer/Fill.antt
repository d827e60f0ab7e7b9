-- ===== src/Logs/Buffer/Fill.antt =====
-- The second loop of `prepend` fills the cells in front of the window.
use openshift_console.Prelude.{
  All, ℕ, suc, ◌+◌, ◌-◌, ◌≤◌, ◌<◌, ◌≡◌, List, [], ◌∷◌, ◌++◌, map, length, arith, refl, sym, ap, ◌∙◌,
  get_or, set, length-set, append-nil, append_assoc,
}
use mathlib.Core.Path.{ap₂}
use openshift_console.Prelude.Int.{ℤ}
use openshift_console.Prelude.Text.{Text}
use openshift_console.Prelude.Arrays.{
  subarray, length-subarray, subarray-set, subarray-set_before, subarray-append-subarray,
}
use openshift_console.Logs.Buffer.{LogBuffer, trim_end}
use openshift_console.Logs.Buffer.Front.{store_extents}
use openshift_console.Logs.Buffer.View.{Extent, zip_extents, live, FitsIn, IsStored, count_page}
use openshift_console.Logs.Buffer.Extents.{zip_extents-append, All-append}
use openshift_console.Logs.Buffer.Push.{extent}

abbrev pub front_extent : Text → ℕ → ℕ × ℕ → Extent
front_extent chunk page (start, end) = extent page start (trim_end chunk start end)

-- A part of the arrays, as extents.
pub cells : LogBuffer → ℕ → ℕ → List Extent
cells b from to =
    zip_extents (subarray b.page_of from to) (subarray b.start_at from to)
      (subarray b.end_at from to)

-- The extents fill the cells up to `stop`, and all else is kept.
pub record IsFilled (b b' : LogBuffer) (from target stop : ℕ) (xs : List Extent) : Type 0 where
  pub pages_length : length b'.page_of ≡ length b.page_of
  pub starts_length : length b'.start_at ≡ length b.start_at
  pub ends_length : length b'.end_at ≡ length b.end_at
  pub written : cells b' from stop ≡ cells b from target ++ xs
  pub behind : (to : ℕ) → cells b' stop to ≡ cells b stop to
  pub same_pages : b'.pages ≡ b.pages
  pub same_refs : b'.page_refs ≡ b.page_refs
  pub same_tail : b'.tail_page ≡ b.tail_page
  pub same_used : b'.used ≡ b.used
  pub same_max : b'.max_lines ≡ b.max_lines
  pub same_seq : b'.base_seq ≡ b.base_seq
  pub same_start : b'.line_start ≡ b.line_start
  pub same_scan : b'.scan_from ≡ b.scan_from
  pub same_size : b'.page_size ≡ b.page_size

-- One round of the loop.
module _ (b : LogBuffer) (from target p start end : ℕ) (h : from ≤ target)
    (k : target < length b.page_of) (ls : length b.start_at ≡ length b.page_of)
    (le : length b.end_at ≡ length b.page_of) where
  abbrev one_stored : LogBuffer
  one_stored = record b {
    page_of = set b.page_of target p;
    start_at = set b.start_at target start;
    end_at = set b.end_at target end;
  }

  cells-one_stored :
      cells one_stored from (suc target) ≡ cells b from target ++ (extent p start end ∷ [])
  unfolding cells zip_extents
  cells-one_stored =
      let n = length-subarray b.page_of from target h (omega arith) in
      rw
        (
          subarray-set b.page_of from target p h k,
          subarray-set b.start_at from target start h (omega arith),
          subarray-set b.end_at from target end h (omega arith),
        )
        (zip_extents-append _ _ _ (p ∷ []) (start ∷ []) (end ∷ [])
          (length-subarray b.start_at from target h (omega arith) ∙ sym n)
          (length-subarray b.end_at from target h (omega arith) ∙ sym n))

  cells-behind : (at to : ℕ) → target < at → cells one_stored at to ≡ cells b at to
  unfolding cells
  cells-behind at to past = rw (
    subarray-set_before b.page_of target at to p past,
    subarray-set_before b.start_at target at to start past,
    subarray-set_before b.end_at target at to end past,
  )

module _ (chunk : Text) (page from : ℕ) where
  pub store_extents-IsFilled :
      (xs : List (ℕ × ℕ)) (target stop : ℕ) (b : LogBuffer)
      → target + length xs ≡ stop
      → from ≤ target
      → stop ≤ length b.page_of
      → length b.start_at ≡ length b.page_of
      → length b.end_at ≡ length b.page_of
      → IsFilled b
          (store_extents chunk page xs target b)
          from
          target
          stop
          (map (front_extent chunk page) xs)
  unfolding store_extents
  store_extents-IsFilled [] target stop b e h k ls le =
      let e' : stop ≡ target = omega arith in
      rw e' (record {
        pages_length = refl;
        starts_length = refl;
        ends_length = refl;
        written = sym (append-nil _);
        behind = λ to. refl;
        same_pages = refl;
        same_refs = refl;
        same_tail = refl;
        same_used = refl;
        same_max = refl;
        same_seq = refl;
        same_start = refl;
        same_scan = refl;
        same_size = refl;
      })
  store_extents-IsFilled ((start, end) ∷ xs) target stop b e h k ls le =
      let end' = trim_end chunk start end in
      let below : target < length b.page_of = omega arith in
      let b' = one_stored b from target page start end' h below ls le in
      let pages_kept = length-set b.page_of target page in
      let starts_kept = length-set b.start_at target start in
      let ends_kept = length-set b.end_at target end' in
      let ih =
        store_extents-IsFilled xs (suc target) stop b' (omega arith) (omega arith) (omega arith)
          (omega arith) (omega arith) in
      record {
        pages_length = ih.pages_length ∙ pages_kept;
        starts_length = ih.starts_length ∙ starts_kept;
        ends_length = ih.ends_length ∙ ends_kept;
        written =
            ih.written
            ∙ ap (λ t. t ++ map (front_extent chunk page) xs)
                (cells-one_stored b from target page start end' h below ls le)
            ∙ append_assoc (cells b from target) _ _;
        behind = λ to.
            ih.behind to
            ∙ cells-behind b from target page start end' h below ls le stop to (omega arith);
        same_pages = ih.same_pages;
        same_refs = ih.same_refs;
        same_tail = ih.same_tail;
        same_used = ih.same_used;
        same_max = ih.same_max;
        same_seq = ih.same_seq;
        same_start = ih.same_start;
        same_scan = ih.same_scan;
        same_size = ih.same_size;
      }

module _ (b : LogBuffer) (from mid to : ℕ) (h : from ≤ mid) (k : mid ≤ to) where
  cells-append-cells :
      to ≤ length b.page_of
      → length b.start_at ≡ length b.page_of
      → length b.end_at ≡ length b.page_of
      → cells b from to ≡ cells b from mid ++ cells b mid to
  unfolding cells
  cells-append-cells l ls le =
      let n = length-subarray b.page_of from mid h (omega arith) in
      cc (
        subarray-append-subarray b.page_of from mid to h k,
        subarray-append-subarray b.start_at from mid to h k,
        subarray-append-subarray b.end_at from mid to h k,
        zip_extents-append (subarray b.page_of from mid) (subarray b.start_at from mid)
            (subarray b.end_at from mid) (subarray b.page_of mid to) (subarray b.start_at mid to)
            (subarray b.end_at mid to) (length-subarray b.start_at from mid h (omega arith) ∙ sym n)
            (length-subarray b.end_at from mid h (omega arith) ∙ sym n),
      )

no_cells : (b : LogBuffer) (from : ℕ) → cells b from from ≡ []
unfolding cells zip_extents
no_cells b from = let e : from - from ≡ 0 = omega arith in rw e

live-cells : (b : LogBuffer) → live b ≡ cells b b.base b.used
unfolding live cells
live-cells b = refl

-- The window that begins `n` cells further down, over what was stored there.
module _ (room stored : LogBuffer) (w : IsStored room) (first : ℕ) (ys : List Extent)
    (below : first ≤ room.base) (f : IsFilled room stored first first room.base ys) (refs : List ℕ)
    (seq : ℤ) where
  abbrev pub placed : LogBuffer
  placed = record stored { page_refs = refs; base = first; base_seq = seq }

  cells-placed : cells placed first stored.used ≡ cells stored first stored.used
  unfolding cells
  cells-placed = refl

  pub live-placed : live placed ≡ ys ++ live room
  live-placed =
      live-cells placed
      ∙ cells-placed
      ∙ cells-append-cells stored first room.base stored.used below (rw f.same_used w.ordered)
          (omega (arith, f.same_used, f.pages_length, w.in_cells))
          (omega (arith, f.pages_length, f.starts_length, w.starts))
          (omega (arith, f.pages_length, f.ends_length, w.ends))
      ∙ ap₂ ◌++◌ (f.written ∙ ap (λ t. t ++ ys) (no_cells room first))
          (f.behind stored.used ∙ ap (cells room room.base) f.same_used ∙ sym (live-cells room))

  pub placed-IsStored :
      length refs ≡ length room.pages
      → All (FitsIn room.pages) ys
      → ((p : ℕ) → get_or refs p 0 ≡ count_page p (ys ++ live room))
      → IsStored placed
  placed-IsStored l fits counted = record {
    starts = omega (arith, f.pages_length, f.starts_length, w.starts);
    ends = omega (arith, f.pages_length, f.ends_length, w.ends);
    has_cells = omega (arith, f.pages_length, w.has_cells);
    ordered = omega (arith, f.same_used, w.ordered);
    in_cells = omega (arith, f.same_used, f.pages_length, w.in_cells);
    counters = rw f.same_pages l;
    has_tail = rw (f.same_pages, f.same_tail) w.has_tail;
    keeps = rw f.same_max w.keeps;
    fits = rw (live-placed, f.same_pages) (All-append _ ys (live room) fits w.fits);
    counted = λ p. rw live-placed (counted p);
  }

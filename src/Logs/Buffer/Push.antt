-- ===== src/Logs/Buffer/Push.antt =====
-- `pushLine` adds one line behind the retained ones.
use openshift_console.Prelude.{
  ℕ, suc, ◌+◌, ◌-◌, ◌≤◌, ◌<◌, ◌≡◌, List, [], ◌∷◌, ◌++◌, length, arith, refl, sym, ap, ◌∙◌,
  length-set, get_or-set, get_or,
}
use openshift_console.Prelude.Text.{Text}
use openshift_console.Prelude.Arrays.{subarray, subarray-set, length-subarray}
use openshift_console.Logs.Buffer.{LogBuffer, store_line, push_line, trim_end, make_room, page_text}
use openshift_console.Logs.Buffer.View.{Extent, zip_extents, live, FitsIn, IsStored, count_page}
use openshift_console.Logs.Buffer.Extents.{zip_extents-append, count_page-append, All-append}
use openshift_console.Logs.Buffer.Room.{make_room_lem}

abbrev pub extent : ℕ → ℕ → ℕ → Extent
extent page start end = record { page = page; start = start; end = end }

-- One extent is added to the window, and the pages and the rest of the state are kept.
pub record IsPushed (b : LogBuffer) (x : Extent) (b' : LogBuffer) : Type 0 where
  pub stored : IsStored b'
  pub one_more : live b' ≡ live b ++ (x ∷ [])
  pub count_more : b'.used - b'.base ≡ suc (b.used - b.base)
  pub same_pages : b'.pages ≡ b.pages
  pub same_tail : b'.tail_page ≡ b.tail_page
  pub same_max : b'.max_lines ≡ b.max_lines
  pub same_seq : b'.base_seq ≡ b.base_seq
  pub same_size : b'.page_size ≡ b.page_size
  pub same_scan : b'.scan_from ≡ b.scan_from

module _ (b : LogBuffer) (v : IsStored b) where
  pub length-window :
      (a : List ℕ)
      → length a ≡ length b.page_of
      → length (subarray a b.base b.used) ≡ b.used - b.base
  length-window a e = length-subarray a b.base b.used v.ordered (omega (arith, v.in_cells))

module _ (b : LogBuffer) (v : IsStored b) (room : b.used < length b.page_of) where
  module _ (page start end : ℕ) where
    live-store_line : live (store_line b page start end) ≡ live b ++ (extent page start end ∷ [])
    unfolding live store_line zip_extents
    live-store_line =
        rw
          (
            subarray-set b.page_of b.base b.used page v.ordered room,
            subarray-set b.start_at b.base b.used start v.ordered (omega arith),
            subarray-set b.end_at b.base b.used end v.ordered (omega arith),
          )
          (zip_extents-append _ _ _ (page ∷ []) (start ∷ []) (end ∷ [])
            (length-window b v b.start_at v.starts ∙ sym (length-window b v b.page_of refl))
            (length-window b v b.end_at v.ends ∙ sym (length-window b v b.page_of refl)))

    counted-store_line :
        page < length b.pages
        → (q : ℕ)
        → get_or (store_line b page start end).page_refs q 0
          ≡ count_page q (live (store_line b page start end))
    unfolding count_page
    counted-store_line inside q =
        rw (live-store_line, count_page-append q (live b) (extent page start end ∷ []))
          (unfold store_line in
            ground (
              arith,
              get_or-set b.page_refs page q (get_or b.page_refs page 0 + 1) 0,
              v.counted q,
              v.counted page,
              v.counters,
            ))

    store_line-IsPushed :
        FitsIn b.pages (extent page start end)
        → IsPushed b (extent page start end) (store_line b page start end)
    unfolding store_line
    store_line-IsPushed fit = record {
      stored = record {
        starts =
            omega (arith, length-set b.page_of b.used page, length-set b.start_at b.used start);
        ends = omega (arith, length-set b.page_of b.used page, length-set b.end_at b.used end);
        has_cells = omega (arith, length-set b.page_of b.used page);
        ordered = omega arith;
        in_cells = omega (arith, length-set b.page_of b.used page);
        counters = length-set b.page_refs page _ ∙ v.counters;
        has_tail = v.has_tail;
        keeps = v.keeps;
        fits = rw live-store_line (All-append (FitsIn b.pages) (live b) _ v.fits (fit, tt));
        counted = counted-store_line fit.0;
      };
      one_more = live-store_line;
      count_more = omega (arith, v.ordered);
      same_pages = refl;
      same_tail = refl;
      same_max = refl;
      same_seq = refl;
      same_size = refl;
      same_scan = refl;
    }

-- A carriage return that ends a line is cut off, and nothing else is.
pub trim_end_bounds :
    (text : Text) (start end : ℕ)
    → start ≤ end
    → (start ≤ trim_end text start end) × (trim_end text start end ≤ end)
unfolding trim_end
trim_end_bounds text start end h = ground arith

module _ (b : LogBuffer) (v : IsStored b) (page start end : ℕ) where
  pub push_line-IsPushed :
      FitsIn b.pages (extent page start end)
      → IsPushed b
          (extent page start (trim_end (page_text b page) start end))
          (push_line b page start end)
  unfolding push_line
  push_line-IsPushed (inside, forwards, fits) =
      let (moved, room) = make_room_lem b v in
      let end' = trim_end (page_text b page) start end in
      let (from, to) = trim_end_bounds (page_text b page) start end forwards in
      let p =
        store_line-IsPushed (make_room b) moved.stored room page start end'
          (rw moved.same_pages (inside, from, omega arith)) in
      record {
        stored = p.stored;
        one_more = p.one_more ∙ ap (λ t. t ++ extent page start end' ∷ []) moved.same_live;
        count_more = p.count_more ∙ ap suc moved.same_count;
        same_pages = p.same_pages ∙ moved.same_pages;
        same_tail = p.same_tail ∙ moved.same_tail;
        same_max = p.same_max ∙ moved.same_max;
        same_seq = p.same_seq ∙ moved.same_seq;
        same_size = p.same_size ∙ moved.same_size;
        same_scan = p.same_scan ∙ moved.same_scan;
      }

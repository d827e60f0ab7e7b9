-- ===== src/Logs/Buffer/Prepend.antt =====
-- `prepend` puts older lines in front of the retained ones, whose numbers do not move.
use openshift_console.Prelude.{
  All, ℕ, ◌+◌, ◌-◌, ◌≤◌, ◌<◌, ◌≡◌, List, [], ◌∷◌, ◌++◌, map, length, ◌==◌, arith, refl, sym, ap,
  ◌∙◌, get_or, set, if◌then◌else◌, length-set, get_or-set, get_or-append, get_or-append_at,
  length-append, drop,
}
use mathlib.Core.Path.{ap₂}
use mathlib.Core.List.{map-append}
use openshift_console.Prelude.Int.{pos, ◌-ℤ◌}
use openshift_console.Prelude.Text.{Text}
use openshift_console.Logs.Buffer.{LogBuffer, new_page, page_text}
use openshift_console.Logs.Buffer.Front.{reserve_front, store_extents}
use openshift_console.Logs.Buffer.View.{
  Extent, live, lines, partial, extent_text, FitsIn, IsStored, IsValid, count_page,
}
use openshift_console.Logs.Buffer.Extents.{count_page-append, length-map}
use openshift_console.Logs.Buffer.Spec.{trim_cr, slice-trim_end}
use openshift_console.Logs.Buffer.Seal.{IsStored-new_page, lines-new_page}
use openshift_console.Logs.Buffer.Room.{IsMoved}
use openshift_console.Logs.Buffer.Push.{trim_end_bounds}
use openshift_console.Logs.Buffer.Reserve.{reserve_front_lem}
use openshift_console.Logs.Buffer.Fill.{
  front_extent, IsFilled, store_extents-IsFilled, placed, live-placed, placed-IsStored,
}
use openshift_console.Logs.Buffer.Scan.{cut, IsInside}

-- The chunk's page counts one reference for each extent, and no other page counts any.
count_front :
    (chunk : Text) (page p : ℕ) (xs : List (ℕ × ℕ))
    → count_page p (map (front_extent chunk page) xs) ≡ (if page == p then length xs else 0)
unfolding count_page
count_front chunk page p [] = ground arith
count_front chunk page p (x ∷ xs) = ground (arith, count_front chunk page p xs)

module _ (pages : List Text) (chunk : Text) where
  abbrev opened : List Text
  opened = pages ++ chunk ∷ []

  opened_text : get_or opened (length pages) [] ≡ chunk
  opened_text = get_or-append_at pages (chunk ∷ []) (length pages) [] refl

  front-FitsIn :
      (x : ℕ × ℕ) → IsInside chunk x → FitsIn opened (front_extent chunk (length pages) x)
  front-FitsIn (start, end) (h, k) =
      let (from, to) = trim_end_bounds chunk start end (omega arith) in
      (omega (arith, length-append pages (chunk ∷ [])), from, rw opened_text (omega arith))

  fronts-FitsIn :
      (xs : List (ℕ × ℕ))
      → All (IsInside chunk) xs
      → All (FitsIn opened) (map (front_extent chunk (length pages)) xs)
  fronts-FitsIn [] h = tt
  fronts-FitsIn (x ∷ xs) (h, hs) = (front-FitsIn x h, fronts-FitsIn xs hs)

  front_text :
      (x : ℕ × ℕ)
      → IsInside chunk x
      → extent_text opened (front_extent chunk (length pages) x) ≡ trim_cr (cut chunk x)
  front_text (start, end) (h, k) = rw opened_text (slice-trim_end chunk start end (omega arith) k)

  front_texts :
      (xs : List (ℕ × ℕ))
      → All (IsInside chunk) xs
      → map (extent_text opened) (map (front_extent chunk (length pages)) xs)
        ≡ map trim_cr (map (cut chunk) xs)
  front_texts [] h = refl
  front_texts (x ∷ xs) (h, hs) = ap₂ ◌∷◌ (front_text x h) (front_texts xs hs)

-- What prepending some lines does: they stand before the retained ones, under the numbers just
-- below `firstSeq`, and the unfinished text stays.
pub record Fronted (b b' : LogBuffer) (front : List Text) : Type 0 where
  pub valid : IsValid b'
  pub shown : lines b' ≡ front ++ lines b
  pub unfinished : partial b' ≡ partial b
  pub numbered : b'.base_seq ≡ b.base_seq -ℤ pos (length front)
  pub same_max : b'.max_lines ≡ b.max_lines
  pub same_size : b'.page_size ≡ b.page_size

module _ (b : LogBuffer) (v : IsValid b) (chunk : Text) (xs : List (ℕ × ℕ))
    (inside : All (IsInside chunk) xs) where
  abbrev room : LogBuffer
  room = reserve_front (new_page b chunk) (length xs)

  pub moved : IsMoved (new_page b chunk) room
  moved = (reserve_front_lem (new_page b chunk) (IsStored-new_page b v.stored chunk) (length xs)).0

  enough : length xs ≤ room.base
  enough = (reserve_front_lem (new_page b chunk) (IsStored-new_page b v.stored chunk) (length xs)).1

  abbrev fronts : List Extent
  fronts = map (front_extent chunk (length b.pages)) xs

  abbrev stored : LogBuffer
  stored = store_extents chunk (length b.pages) xs (room.base - length xs) room

  pub filled : IsFilled room stored (room.base - length xs) (room.base - length xs) room.base fronts
  filled =
      store_extents-IsFilled chunk (length b.pages) (room.base - length xs) xs
        (room.base - length xs) room.base room (omega (arith, enough)) (omega arith)
        (omega (arith, moved.stored.ordered, moved.stored.in_cells)) moved.stored.starts
        moved.stored.ends

  abbrev refs : List ℕ
  refs =
      set stored.page_refs (length b.pages) (get_or stored.page_refs (length b.pages) 0 + length xs)

  abbrev result : LogBuffer
  result =
      placed room stored moved.stored (room.base - length xs) fronts (omega arith) filled refs
        (room.base_seq -ℤ pos (length xs))

  room_pages : room.pages ≡ b.pages ++ chunk ∷ []
  room_pages = moved.same_pages ∙ (unfold new_page in refl)

  length-refs : length refs ≡ length room.pages
  length-refs =
      length-set stored.page_refs (length b.pages) _
      ∙ ap length filled.same_refs
      ∙ moved.stored.counters

  new_counter : length b.pages < length stored.page_refs
  new_counter =
      rw (filled.same_refs, moved.stored.counters, room_pages)
        (omega (arith, length-append b.pages (chunk ∷ [])))

  counted-refs : (p : ℕ) → get_or refs p 0 ≡ count_page p (fronts ++ live room)
  counted-refs p =
      let old = λ (q : ℕ). ap (λ rs. get_or rs q 0) filled.same_refs ∙ moved.stored.counted q in
      ground (
        arith,
        get_or-set stored.page_refs (length b.pages) p
            (get_or stored.page_refs (length b.pages) 0 + length xs) 0,
        new_counter,
        old p,
        old (length b.pages),
        count_page-append p fronts (live room),
        count_front chunk (length b.pages) p xs,
      )

  stored-result : IsStored result
  stored-result =
      placed-IsStored room stored moved.stored (room.base - length xs) fronts (omega arith) filled
        refs (room.base_seq -ℤ pos (length xs)) length-refs
        (rw room_pages (fronts-FitsIn b.pages chunk xs inside)) counted-refs

  lines-room : lines room ≡ lines b
  unfolding lines
  lines-room =
      ap₂ (λ ps ls. map (extent_text ps) ls) moved.same_pages moved.same_live
      ∙ (unfold lines in lines-new_page b v.stored chunk)

  lines-result : lines result ≡ map trim_cr (map (cut chunk) xs) ++ lines b
  unfolding lines
  lines-result =
      ap₂ (λ ps ls. map (extent_text ps) ls) filled.same_pages
        (live-placed room stored moved.stored (room.base - length xs) fronts (omega arith) filled
          refs (room.base_seq -ℤ pos (length xs)))
      ∙ map-append (extent_text room.pages) fronts (live room)
      ∙ ap₂ ◌++◌
          (ap (λ ps. map (extent_text ps) fronts) room_pages ∙ front_texts b.pages chunk xs inside)
          lines-room

  same_text : page_text result result.tail_page ≡ page_text b b.tail_page
  unfolding new_page
  same_text =
      ap₂ (λ ps t. get_or ps t []) (filled.same_pages ∙ moved.same_pages)
        (filled.same_tail ∙ moved.same_tail)
      ∙ get_or-append b.pages (chunk ∷ []) b.tail_page [] v.stored.has_tail

  same_line_start : result.line_start ≡ b.line_start
  same_line_start = filled.same_start ∙ moved.same_start ∙ (unfold new_page in refl)

  same_partial : partial result ≡ partial b
  unfolding partial
  same_partial = ap₂ drop same_line_start same_text

  pub result-Fronted : Fronted b result (map trim_cr (map (cut chunk) xs))
  unfolding new_page
  result-Fronted = record {
    valid = record {
      stored = stored-result;
      scanned = rw same_text (filled.same_scan ∙ moved.same_scan ∙ v.scanned);
      started = rw (same_text, same_line_start) v.started;
      unbroken = rw same_partial v.unbroken;
    };
    shown = lines-result;
    unfinished = same_partial;
    numbered =
        ap₂ (λ s n. s -ℤ pos n) moved.same_seq
          (sym (length-map trim_cr (map (cut chunk) xs) ∙ length-map (cut chunk) xs));
    same_max = filled.same_max ∙ moved.same_max;
    same_size = filled.same_size ∙ moved.same_size;
  }

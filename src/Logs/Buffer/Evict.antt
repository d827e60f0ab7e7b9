-- ===== src/Logs/Buffer/Evict.antt =====
-- `evict` drops the oldest lines past `maxLines`, and no page that a retained line reads.
use openshift_console.Prelude.{
  All, ℕ, zero, suc, ◌+◌, ◌-◌, ◌≤◌, ◌<◌, ◌≡◌, List, [], ◌∷◌, map, length, drop, ◌==◌, not, ◌&&◌,
  arith, refl, sym, ap, ◌∙◌, false, true, get_or, set, get_or-set, length-set, Bool-cases, inl, inr,
  ==_iff, Bool,
}
use openshift_console.Prelude.Int.{ℤ, pos, ◌+ℤ◌, +ℤ-zero}
use openshift_console.Prelude.Text.{Text}
use openshift_console.Prelude.Arrays.{subarray-cons}
use openshift_console.Logs.Buffer.{LogBuffer, release, release_all, evict, page_text}
use openshift_console.Logs.Buffer.View.{
  Extent, zip_extents, live, lines, partial, extent_text, FitsIn, IsStored, IsValid, count_page,
}
use openshift_console.Logs.Buffer.Extents.{map-congr, length-map, length-zip_extents}
use openshift_console.Logs.Buffer.Push.{length-window, extent}
use openshift_console.Logs.Buffer.Spec.{newest}

-- The buffer with its window moved.
abbrev pub window_at : ℕ → ℤ → LogBuffer → LogBuffer
window_at i seq b = record b { base = i; base_seq = seq }

-- A page that none of the extents counts is the page of none.
Avoids : ℕ → List Extent → Type 0
Avoids p = All (λ x. (x.page == p) ≡ false)

count_zero : (p : ℕ) (xs : List Extent) → count_page p xs ≡ 0 → Avoids p xs
unfolding count_page Avoids
count_zero p [] h = tt
count_zero p (x ∷ xs) h = (ground arith, count_zero p xs (omega arith))

module _ (pages : List Text) (p : ℕ) (inside : p < length pages) where
  page_text-freed :
      (x : Extent)
      → (x.page == p) ≡ false
      → get_or (set pages p []) x.page [] ≡ get_or pages x.page []
  page_text-freed x other = ground (arith, get_or-set pages p x.page [] [])

  FitsIn-freed : (x : Extent) → (x.page == p) ≡ false → FitsIn pages x → FitsIn (set pages p []) x
  FitsIn-freed x other (h, k, l) =
      (omega (arith, length-set pages p []), k, omega (arith, ap length (page_text-freed x other)))

  extent_text-freed :
      (x : Extent) → (x.page == p) ≡ false → extent_text (set pages p []) x ≡ extent_text pages x
  extent_text-freed x other = rw (page_text-freed x other)

  -- Extents elsewhere keep their texts.
  fits-freed :
      (xs : List Extent) → Avoids p xs → All (FitsIn pages) xs → All (FitsIn (set pages p [])) xs
  unfolding Avoids
  fits-freed [] a h = tt
  fits-freed (x ∷ xs) (other, a) (h, hs) = (FitsIn-freed x other h, fits-freed xs a hs)

  texts-freed :
      (xs : List Extent)
      → Avoids p xs
      → map (extent_text (set pages p [])) xs ≡ map (extent_text pages) xs
  unfolding Avoids
  texts-freed xs a =
      map-congr (λ x. (x.page == p) ≡ false) (extent_text (set pages p [])) (extent_text pages) xs
        extent_text-freed a

module _ (b : LogBuffer) (i : ℕ) (seq seq' : ℤ) (v : IsStored (window_at i seq b))
    (some_left : i < b.used) where
  abbrev page : ℕ
  page = get_or b.page_of i 0

  abbrev oldest : Extent
  oldest = extent page (get_or b.start_at i 0) (get_or b.end_at i 0)

  abbrev others : List Extent
  others = live (window_at (suc i) seq' b)

  live-oldest : live (window_at i seq b) ≡ oldest ∷ others
  unfolding live zip_extents
  live-oldest = rw (
    subarray-cons b.page_of i b.used 0 some_left v.in_cells,
    subarray-cons b.start_at i b.used 0 some_left (omega (arith, v.starts, v.in_cells)),
    subarray-cons b.end_at i b.used 0 some_left (omega (arith, v.ends, v.in_cells)),
  )

  fits_oldest : All (FitsIn b.pages) (oldest ∷ others)
  fits_oldest = rw live-oldest at v.fits

  counted_oldest : (p : ℕ) → get_or b.page_refs p 0 ≡ count_page p (oldest ∷ others)
  counted_oldest p = v.counted p ∙ ap (count_page p) live-oldest

  counted-release : (p : ℕ) → get_or (release b i).page_refs p 0 ≡ count_page p others
  unfolding release count_page
  counted-release p = ground (
    arith,
    counted_oldest p,
    counted_oldest page,
    get_or-set b.page_refs page p (get_or b.page_refs page 0 - 1) 0,
    v.counters,
    fits_oldest.0.0,
  )

  -- The test of `evict` on a page.
  abbrev freed : Bool
  freed = (get_or b.page_refs page 0 - 1 == 0) && not (page == b.tail_page)

  release-freed :
      freed ≡ true
      → ((release b i).pages ≡ set b.pages page [])
        × Avoids page others
        × ((b.tail_page == page) ≡ false)
  unfolding release count_page
  release-freed f =
      (rw f, count_zero page others (ground (arith, counted_oldest page)), ground arith)

  release-kept : freed ≡ false → (release b i).pages ≡ b.pages
  unfolding release
  release-kept f = rw f

  -- What the pages of the released buffer keep.
  pages-release :
      All (FitsIn (release b i).pages) others
      × (map (extent_text (release b i).pages) others ≡ map (extent_text b.pages) others)
      × (get_or (release b i).pages b.tail_page [] ≡ get_or b.pages b.tail_page [])
      × (length (release b i).pages ≡ length b.pages)
  pages-release = elim (Bool-cases freed) [
    | inl f ↦
        let (e, a, other) = release-freed f in
        rw e (
          fits-freed b.pages page fits_oldest.0.0 others a fits_oldest.1,
          texts-freed b.pages page fits_oldest.0.0 others a,
          page_text-freed b.pages page fits_oldest.0.0 (extent b.tail_page 0 0) other,
          length-set b.pages page [],
        )
    | inr f ↦ rw (release-kept f) (fits_oldest.1, refl, refl, refl)
  ]

  live-release : live (window_at (suc i) seq' (release b i)) ≡ others
  unfolding live release
  live-release = refl

  IsStored-release : IsStored (window_at (suc i) seq' (release b i))
  unfolding release
  IsStored-release = record {
    starts = v.starts;
    ends = v.ends;
    has_cells = v.has_cells;
    ordered = some_left;
    in_cells = v.in_cells;
    counters = length-set b.page_refs page _ ∙ v.counters ∙ sym pages-release.3;
    has_tail = rw (pages-release.3) v.has_tail;
    keeps = v.keeps;
    fits = rw live-release (pages-release.0);
    counted = λ p. rw live-release (counted-release p);
  }

  lines-release :
      lines (window_at i seq b)
      ≡ extent_text b.pages oldest ∷ lines (window_at (suc i) seq' (release b i))
  unfolding lines
  lines-release =
      rw (live-oldest, live-release)
        (ap (λ t. extent_text b.pages oldest ∷ t) (sym (pages-release.1)))

-- The sequence number of the window's first line is no part of the store.
module _ (b : LogBuffer) (i : ℕ) (seq seq' : ℤ) where
  IsStored-renumbered : IsStored (window_at i seq b) → IsStored (window_at i seq' b)
  unfolding live
  IsStored-renumbered v = record {
    starts = v.starts;
    ends = v.ends;
    has_cells = v.has_cells;
    ordered = v.ordered;
    in_cells = v.in_cells;
    counters = v.counters;
    has_tail = v.has_tail;
    keeps = v.keeps;
    fits = v.fits;
    counted = v.counted;
  }

  lines-renumbered : lines (window_at i seq' b) ≡ lines (window_at i seq b)
  unfolding lines live
  lines-renumbered = refl

-- What `n` rounds of releases keep.
pub record IsReleased (n i j : ℕ) (seq seq' : ℤ) (b b' : LogBuffer) : Type 0 where
  pub stored : IsStored (window_at j seq' b')
  pub fewer : lines (window_at j seq' b') ≡ drop n (lines (window_at i seq b))
  pub same_tail : b'.tail_page ≡ b.tail_page
  pub same_text : page_text b' b.tail_page ≡ page_text b b.tail_page
  pub same_max : b'.max_lines ≡ b.max_lines
  pub same_size : b'.page_size ≡ b.page_size
  pub same_start : b'.line_start ≡ b.line_start
  pub same_scan : b'.scan_from ≡ b.scan_from

module _ (n i j : ℕ) (seq seq' : ℤ) (b b' : LogBuffer) where
  release-IsReleased :
      IsStored (window_at i seq b)
      → i < b.used
      → IsReleased n (suc i) j seq' seq' (release b i) b'
      → IsReleased (suc n) i j seq seq' b b'
  unfolding release
  release-IsReleased v left r =
      let (_, _, tail_text, _) = pages-release b i seq seq' v left in
      record {
        stored = r.stored;
        fewer = r.fewer ∙ sym (ap (drop (suc n)) (lines-release b i seq seq' v left));
        same_tail = r.same_tail;
        same_text = r.same_text ∙ tail_text;
        same_max = r.same_max;
        same_size = r.same_size;
        same_start = r.same_start;
        same_scan = r.same_scan;
      }

used-release : (b : LogBuffer) (i : ℕ) → (release b i).used ≡ b.used
unfolding release
used-release b i = refl

release_all-IsReleased :
    (n i j : ℕ) (seq seq' : ℤ) (b : LogBuffer)
    → IsStored (window_at i seq b)
    → i + n ≡ j
    → j ≤ b.used
    → IsReleased n i j seq seq' b (release_all n i b)
unfolding release_all
release_all-IsReleased zero i j seq seq' b v e h =
    let e' : j ≡ i = omega arith in
    rw e' (record {
      stored = IsStored-renumbered b i seq seq' v;
      fewer = lines-renumbered b i seq seq';
      same_tail = refl;
      same_text = refl;
      same_max = refl;
      same_size = refl;
      same_start = refl;
      same_scan = refl;
    })
release_all-IsReleased (suc n) i j seq seq' b v e h =
    let left : i < b.used = omega arith in
    release-IsReleased n i j seq seq' b (release_all n (suc i) (release b i)) v left (
      release_all-IsReleased n (suc i) j seq' seq' (release b i)
        (IsStored-release b i seq seq' v left) (omega arith) (omega (arith, used-release b i)))

-- There is a line for each cell of the window.
pub length-lines : (b : LogBuffer) → IsStored b → length (lines b) ≡ b.used - b.base
unfolding lines live
length-lines b v =
    length-map (extent_text b.pages) _
    ∙ length-zip_extents _ _ _
        (length-window b v b.start_at v.starts ∙ sym (length-window b v b.page_of refl))
        (length-window b v b.end_at v.ends ∙ sym (length-window b v b.page_of refl))
    ∙ length-window b v b.page_of refl

-- What eviction does to a valid buffer.
pub record IsEvicted (b b' : LogBuffer) : Type 0 where
  pub valid : IsValid b'
  pub kept : lines b' ≡ newest b.max_lines (lines b)
  pub same_partial : partial b' ≡ partial b
  pub numbered : b'.base_seq ≡ b.base_seq +ℤ pos (length (lines b) - b.max_lines)
  pub same_max : b'.max_lines ≡ b.max_lines
  pub same_size : b'.page_size ≡ b.page_size

module _ (b : LogBuffer) (v : IsValid b) (n : ℕ) (seq : ℤ) where
  -- The buffer behind `n` releases, with the window moved.
  abbrev dropped : LogBuffer
  dropped = window_at (b.base + n) seq (release_all n b.base b)

  dropped-IsValid :
      b.base + n ≤ b.used
      → IsValid dropped
        × (lines dropped ≡ drop n (lines b))
        × (partial dropped ≡ partial b)
        × (dropped.max_lines ≡ b.max_lines)
        × (dropped.page_size ≡ b.page_size)
  unfolding partial
  dropped-IsValid h =
      let r = release_all-IsReleased n b.base (b.base + n) b.base_seq seq b v.stored refl h in
      let text : page_text dropped dropped.tail_page ≡ page_text b b.tail_page =
        ap (λ t. get_or dropped.pages t []) r.same_tail ∙ r.same_text in
      (
        record {
          stored = r.stored;
          scanned = rw (text, r.same_scan) v.scanned;
          started = rw (text, r.same_start) v.started;
          unbroken = rw (text, r.same_start) v.unbroken;
        },
        r.fewer,
        rw (text, r.same_start),
        r.same_max,
        r.same_size,
      )

pub evict-IsEvicted : (b : LogBuffer) → IsValid b → IsEvicted b (evict b)
unfolding evict newest
evict-IsEvicted b v =
    let excess = b.used - b.base - b.max_lines in
    let counted : length (lines b) - b.max_lines ≡ excess =
      ap (λ n. n - b.max_lines) (length-lines b v.stored) in
    elim (Bool-cases (excess == 0)) [
      | inl few ↦
          let none_left : excess ≡ 0 = (==_iff excess 0).0 few in
          rw few (record {
            valid = v;
            kept = rw (counted, none_left);
            same_partial = refl;
            numbered = rw (counted, none_left) (sym (+ℤ-zero b.base_seq));
            same_max = refl;
            same_size = refl;
          })
      | inr many ↦
          let (valid, kept, rest, most, size) =
            dropped-IsValid b v excess (b.base_seq +ℤ pos excess)
              (omega (arith, v.stored.ordered)) in
          rw many (record {
            valid = valid;
            kept = rw counted kept;
            same_partial = rest;
            numbered = rw counted;
            same_max = most;
            same_size = size;
          })
    ]

-- ===== src/Logs/Buffer/View.antt =====
-- What a `LogBuffer` stands for: the retained lines, the text not yet terminated, and the
-- invariant under which the arrays and the pages hold them.
use openshift_console.Prelude.{
  All, ℕ, ◌+◌, ◌≤◌, ◌<◌, ◌≡◌, List, [], ◌∷◌, map, length, get_or, drop, ◌==◌, if◌then◌else◌,
}
use openshift_console.Prelude.Text.{Text, slice, Lacks}
use openshift_console.Prelude.Arrays.{subarray}
use openshift_console.Logs.Buffer.{LogBuffer, newline, page_text}

-- A line's page and its extent there.
pub record Extent : Type 0 where
  pub page : ℕ
  pub start : ℕ
  pub end : ℕ

unfoldable pub zip_extents : List ℕ → List ℕ → List ℕ → List Extent
zip_extents (p ∷ ps) (s ∷ ss) (e ∷ es) =
    record { page = p; start = s; end = e } ∷ zip_extents ps ss es
zip_extents _ _ _ = []

-- The extents of the retained lines, oldest first.
unfoldable pub live : LogBuffer → List Extent
live b =
    zip_extents (subarray b.page_of b.base b.used) (subarray b.start_at b.base b.used)
      (subarray b.end_at b.base b.used)

abbrev pub extent_text : List Text → Extent → Text
extent_text pages x = slice (get_or pages x.page []) x.start x.end

-- The retained lines, oldest first.
unfoldable pub lines : LogBuffer → List Text
lines b = map (extent_text b.pages) (live b)

-- The text behind the last line break.
unfoldable pub partial : LogBuffer → Text
partial b = drop b.line_start (page_text b b.tail_page)

-- How many of the extents lie in a page.
unfoldable pub count_page : ℕ → List Extent → ℕ
count_page p [] = 0
count_page p (x ∷ xs) = (if x.page == p then 1 else 0) + count_page p xs

abbrev pub FitsIn : List Text → Extent → Type 0
FitsIn pages x =
    (x.page < length pages) × (x.start ≤ x.end) × (x.end ≤ length (get_or pages x.page []))

-- The arrays have one length and hold the live window, whose extents lie in the pages; each page
-- is referenced as often as its counter says.
pub record IsStored (b : LogBuffer) : Type 0 where
  pub starts : length b.start_at ≡ length b.page_of
  pub ends : length b.end_at ≡ length b.page_of
  pub has_cells : 0 < length b.page_of
  pub ordered : b.base ≤ b.used
  pub in_cells : b.used ≤ length b.page_of
  pub counters : length b.page_refs ≡ length b.pages
  pub has_tail : b.tail_page < length b.pages
  pub keeps : 0 < b.max_lines
  pub fits : All (FitsIn b.pages) (live b)
  pub counted : (p : ℕ) → get_or b.page_refs p 0 ≡ count_page p (live b)

-- The tail page has been scanned to its end.
pub record IsValid (b : LogBuffer) : Type 0 where
  pub stored : IsStored b
  pub scanned : b.scan_from ≡ length (page_text b b.tail_page)
  pub started : b.line_start ≤ length (page_text b b.tail_page)
  pub unbroken : Lacks newline (partial b)

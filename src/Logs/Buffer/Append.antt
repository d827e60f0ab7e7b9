-- ===== src/Logs/Buffer/Append.antt =====
-- `append` and `flushPartial`: the lines that a chunk completes join the retained ones.
use openshift_console.Prelude.{
  ℕ, suc, ◌<◌, ◌≡◌, List, [], ◌++◌, length, drop, arith, sym, ap, ◌∙◌, get_or, set, get_or-set,
  length-set, ◌⊎◌, inl, inr, length-append, length-drop, drop-append, drop-append_more,
  get_or-set_self,
}
use mathlib.Core.Path.{ap₂}
use openshift_console.Prelude.Text.{Text, Lacks}
use openshift_console.Prelude.Text.Lines.{last_part-split-Lacks}
use openshift_console.Prelude.Arrays.{subarray-append}
use openshift_console.Logs.Buffer.{LogBuffer, page_text, absorb, index_lines, newline}
use openshift_console.Logs.Buffer.View.{
  Extent, live, lines, partial, extent_text, FitsIn, IsStored, IsValid,
}
use openshift_console.Logs.Buffer.Extents.{All-map, map-congr}
use openshift_console.Logs.Buffer.Spec.{whole_lines, remainder}
use openshift_console.Logs.Buffer.Index.{
  IsIndexed, index_lines-IsIndexed, IsStored-scanned_to, lines-scanned_to,
}

-- A page that grows keeps the texts of its extents.
module _ (pages : List Text) (p : ℕ) (inside : p < length pages) (chunk : Text) where
  abbrev longer : List Text
  longer = set pages p (get_or pages p [] ++ chunk)

  page_text-longer :
      (q : ℕ)
      → (get_or longer q [] ≡ get_or pages q [])
        ⊎ ((q ≡ p) × (get_or longer q [] ≡ get_or pages p [] ++ chunk))
  page_text-longer q = ground (arith, get_or-set pages p q (get_or pages p [] ++ chunk) [])

  FitsIn-longer : (x : Extent) → FitsIn pages x → FitsIn longer x
  FitsIn-longer x (h, k, l) = elim (page_text-longer x.page) [
    | inl same ↦ (omega (arith, length-set pages p (get_or pages p [] ++ chunk)), k, rw same l)
    | inr (here, more) ↦ (
      omega (arith, length-set pages p (get_or pages p [] ++ chunk)),
      k,
      rw (more, ← here) (omega (arith, length-append (get_or pages x.page []) chunk)),
    )
  ]

  extent_text-longer : (x : Extent) → FitsIn pages x → extent_text longer x ≡ extent_text pages x
  extent_text-longer x (h, k, l) = elim (page_text-longer x.page) [
    | inl same ↦ rw same
    | inr (here, more) ↦
        rw (more, ← here) (subarray-append (get_or pages x.page []) chunk x.start x.end l k)
  ]

-- The tail page with a chunk behind it.
module _ (b : LogBuffer) (chunk : Text) where
  abbrev grown : LogBuffer
  grown = record b { pages = set b.pages b.tail_page (page_text b b.tail_page ++ chunk) }

  IsStored-grown : IsStored b → IsStored grown
  unfolding live
  IsStored-grown v = record {
    starts = v.starts;
    ends = v.ends;
    has_cells = v.has_cells;
    ordered = v.ordered;
    in_cells = v.in_cells;
    counters = v.counters ∙ sym (length-set b.pages b.tail_page _);
    has_tail =
        omega
          (arith, v.has_tail, length-set b.pages b.tail_page (page_text b b.tail_page ++ chunk));
    keeps = v.keeps;
    fits = All-map (live b) (FitsIn-longer b.pages b.tail_page v.has_tail chunk) v.fits;
    counted = v.counted;
  }

  lines-grown : IsStored b → lines grown ≡ lines b
  unfolding lines live
  lines-grown v =
      map-congr (FitsIn b.pages) _ _ (live b)
        (extent_text-longer b.pages b.tail_page v.has_tail chunk) v.fits

-- The lines that a chunk completes, and what stays of the text behind them.
pub record IsFed (b b' : LogBuffer) (chunk : Text) : Type 0 where
  pub valid : IsValid b'
  pub more_lines : lines b' ≡ lines b ++ whole_lines (partial b ++ chunk)
  pub rest : partial b' ≡ remainder (partial b ++ chunk)
  pub same_max : b'.max_lines ≡ b.max_lines
  pub same_seq : b'.base_seq ≡ b.base_seq
  pub same_size : b'.page_size ≡ b.page_size

remainder-Lacks : (s : Text) → Lacks newline (remainder s)
unfolding remainder
remainder-Lacks s = last_part-split-Lacks newline s

module _ (b : LogBuffer) (v : IsValid b) (chunk : Text) where
  abbrev old : Text
  old = page_text b b.tail_page

  abbrev text : Text
  text = old ++ chunk

  from_start : drop b.line_start text ≡ partial b ++ chunk
  unfolding partial
  from_start = drop-append b.line_start old chunk v.started

  from_scan : drop b.scan_from text ≡ chunk
  from_scan = drop-append_more old chunk b.scan_from 0 (omega (arith, v.scanned))

  reads : drop b.line_start text ≡ partial b ++ drop b.scan_from text
  reads = from_start ∙ ap (λ t. partial b ++ t) (sym from_scan)

  IsIndexed-chunk :
      IsIndexed
        (grown b chunk)
        (index_lines (suc (length text)) text b.scan_from (grown b chunk))
        text
  IsIndexed-chunk =
      index_lines-IsIndexed text (suc (length text)) b.scan_from (partial b) (grown b chunk)
        (IsStored-grown b chunk v.stored)
        (get_or-set_self b.pages b.tail_page text [] v.stored.has_tail)
        (omega (arith, v.scanned, length-append old chunk)) (omega arith)
        (unfold partial in omega (arith, v.scanned, v.started, length-drop b.line_start old)) reads
        v.unbroken

  pub absorb-IsFed : IsFed b (absorb b chunk) chunk
  unfolding absorb partial
  absorb-IsFed =
      let i = IsIndexed-chunk in
      let b' = index_lines (suc (length text)) text b.scan_from (grown b chunk) in
      let same : page_text b' b'.tail_page ≡ text =
        rw (i.same_pages, i.same_tail)
          (get_or-set_self b.pages b.tail_page text [] v.stored.has_tail) in
      let rest : drop b'.line_start (page_text b' b'.tail_page) ≡ remainder (partial b ++ chunk) =
        ap (drop b'.line_start) same ∙ i.rest ∙ ap remainder from_start in
      record {
        valid = record {
          stored = IsStored-scanned_to b' b'.line_start (length text) i.stored;
          scanned = sym (ap length same);
          started = rw same i.started;
          unbroken = rw rest (remainder-Lacks (partial b ++ chunk));
        };
        more_lines =
            lines-scanned_to b' b'.line_start (length text)
            ∙ i.more_lines
            ∙ ap₂ (λ ls t. ls ++ whole_lines t) (lines-grown b chunk v.stored) from_start;
        rest = rest;
        same_max = i.same_max;
        same_seq = i.same_seq;
        same_size = i.same_size;
      }

-- ===== src/Logs/Buffer/Index.antt =====
-- The loop of `append` indexes each line that the text completes.
use openshift_console.Prelude.{
  ℕ, zero, suc, ◌+◌, ◌-◌, ◌≤◌, ◌<◌, ◌≡◌, [], ◌∷◌, ◌++◌, length, take, drop, arith, refl, sym, ap,
  ◌∙◌, append_assoc, append-nil, take-append_more, inl, inr, length-append,
}
use mathlib.Core.List.{map-append}
use openshift_console.Prelude.Text.{Text, Lacks, slice}
use openshift_console.Prelude.Text.Lines.{
  index_of-cases, split-eq_single, split-append_sep, split-cases,
}
use openshift_console.Logs.Buffer.{LogBuffer, index_lines, push_line, page_text, newline, trim_end}
use openshift_console.Logs.Buffer.View.{Extent, live, lines, extent_text, IsStored}
use openshift_console.Logs.Buffer.Push.{IsPushed, push_line-IsPushed, extent}
use openshift_console.Logs.Buffer.Spec.{trim_cr, whole_lines, remainder, slice-trim_end}

whole_lines-eq_nil : (s : Text) → Lacks newline s → whole_lines s ≡ []
unfolding whole_lines
whole_lines-eq_nil s h = rw (split-eq_single newline s h)

remainder-eq_self : (s : Text) → Lacks newline s → remainder s ≡ s
unfolding remainder
remainder-eq_self s h = rw (split-eq_single newline s h)

-- A text that reads on to a line break completes the line before it.
whole_lines-append_newline :
    (p rest : Text)
    → Lacks newline p
    → whole_lines (p ++ newline ∷ rest) ≡ trim_cr p ∷ whole_lines rest
unfolding whole_lines
whole_lines-append_newline p rest h =
    let (q, qs, e) = split-cases newline rest in rw (split-append_sep newline p rest h, e)

remainder-append_newline :
    (p rest : Text) → Lacks newline p → remainder (p ++ newline ∷ rest) ≡ remainder rest
unfolding remainder
remainder-append_newline p rest h =
    let (q, qs, e) = split-cases newline rest in rw (split-append_sep newline p rest h, e)

pub Lacks-append : (c : ℕ) (s t : Text) → Lacks c s → Lacks c t → Lacks c (s ++ t)
Lacks-append c [] t h k = k
Lacks-append c (d ∷ s) t (p, h) k = (p, Lacks-append c s t h k)

-- What the loop adds to the buffer: the lines that the text completes from `line_start` on.
pub record IsIndexed (b b' : LogBuffer) (text : Text) : Type 0 where
  pub stored : IsStored b'
  pub more_lines : lines b' ≡ lines b ++ whole_lines (drop b.line_start text)
  pub rest : drop b'.line_start text ≡ remainder (drop b.line_start text)
  pub started : b'.line_start ≤ length text
  pub same_pages : b'.pages ≡ b.pages
  pub same_tail : b'.tail_page ≡ b.tail_page
  pub same_max : b'.max_lines ≡ b.max_lines
  pub same_seq : b'.base_seq ≡ b.base_seq
  pub same_size : b'.page_size ≡ b.page_size

pub lines_pushed :
    (b b' : LogBuffer) (x : Extent)
    → IsPushed b x b'
    → lines b' ≡ lines b ++ (extent_text b.pages x ∷ [])
unfolding lines
lines_pushed b b' x p =
    rw (p.one_more, p.same_pages) (map-append (extent_text b.pages) (live b) (x ∷ []))

-- The scan positions are no part of the store.
module _ (b : LogBuffer) (start scan : ℕ) where
  abbrev pub scanned_to : LogBuffer
  scanned_to = record b { line_start = start; scan_from = scan }

  pub IsStored-scanned_to : IsStored b → IsStored scanned_to
  unfolding live
  IsStored-scanned_to v = record {
    starts = v.starts;
    ends = v.ends;
    has_cells = v.has_cells;
    ordered = v.ordered;
    in_cells = v.in_cells;
    counters = v.counters;
    has_tail = v.has_tail;
    keeps = v.keeps;
    fits = v.fits;
    counted = v.counted;
  }

  pub lines-scanned_to : lines scanned_to ≡ lines b
  unfolding lines live
  lines-scanned_to = refl

module _ (text : Text) where
  module _ (b : LogBuffer) (v : IsStored b) (same : page_text b b.tail_page ≡ text) (nl : ℕ)
      (line : Text) (below : nl < length text) (at : nl ≡ b.line_start + length line)
      (reads : drop b.line_start text ≡ line ++ newline ∷ drop (suc nl) text)
      (free : Lacks newline line) where
    abbrev one_line : LogBuffer
    one_line = push_line b b.tail_page b.line_start nl

    pushed :
        IsPushed b
          (extent b.tail_page b.line_start (trim_end (page_text b b.tail_page) b.line_start nl))
          one_line
    pushed =
        push_line-IsPushed b v b.tail_page b.line_start nl
          (v.has_tail, omega arith, rw same (omega arith))

    -- The extent of the line, without its carriage return.
    line_text :
        slice
          (page_text b b.tail_page)
          b.line_start
          (trim_end (page_text b b.tail_page) b.line_start nl)
        ≡ trim_cr line
    line_text = rw same (
        slice-trim_end text b.line_start nl (omega arith) (omega arith)
        ∙ ap trim_cr (
            ap (take (nl - b.line_start)) reads
            ∙ take-append_more line _ (nl - b.line_start) 0 (omega arith)
            ∙ append-nil line))

    more : lines one_line ≡ lines b ++ (trim_cr line ∷ [])
    more = lines_pushed b one_line _ pushed ∙ ap (λ t. lines b ++ t ∷ []) line_text

    one_line-IsIndexed :
        (b' : LogBuffer)
        → IsIndexed (record one_line { line_start = suc nl }) b' text
        → IsIndexed b b' text
    one_line-IsIndexed b' i = record {
      stored = i.stored;
      more_lines =
          i.more_lines
          ∙ ap (λ t. t ++ whole_lines (drop (suc nl) text)) (lines-scanned_to one_line _ _ ∙ more)
          ∙ append_assoc (lines b) _ _
          ∙ ap (λ t. lines b ++ t)
              (sym (ap whole_lines reads ∙ whole_lines-append_newline line _ free));
      rest = i.rest ∙ sym (ap remainder reads ∙ remainder-append_newline line _ free);
      started = i.started;
      same_pages = i.same_pages ∙ pushed.same_pages;
      same_tail = i.same_tail ∙ pushed.same_tail;
      same_max = i.same_max ∙ pushed.same_max;
      same_seq = i.same_seq ∙ pushed.same_seq;
      same_size = i.same_size ∙ pushed.same_size;
    }

  -- The scan is past `seen`, which holds no line break.
  pub index_lines-IsIndexed :
      (fuel from : ℕ) (seen : Text) (b : LogBuffer)
      → IsStored b
      → page_text b b.tail_page ≡ text
      → from ≤ length text
      → length text - from < fuel
      → from ≡ b.line_start + length seen
      → drop b.line_start text ≡ seen ++ drop from text
      → Lacks newline seen
      → IsIndexed b (index_lines fuel text from b) text
  unfolding index_lines
  index_lines-IsIndexed zero from seen b v same inside enough at reads lacks = absurd (omega arith)
  index_lines-IsIndexed (suc fuel) from seen b v same inside enough at reads lacks =
      elim (index_of-cases text newline from inside) [
        | inl (missing, free) ↦
            let none_left : Lacks newline (drop b.line_start text) =
              rw reads (Lacks-append newline seen _ lacks free) in
            rw (missing, index_lines)
              (record {
                stored = v;
                more_lines = rw (whole_lines-eq_nil _ none_left) (sym (append-nil _));
                rest = sym (remainder-eq_self _ none_left);
                started = omega arith;
                same_pages = refl;
                same_tail = refl;
                same_max = refl;
                same_seq = refl;
                same_size = refl;
              })
        | inr (nl, mid, found, whole, free, here, below) ↦
            let line = seen ++ mid in
            let at_line : nl ≡ b.line_start + length line = omega (arith, length-append seen mid) in
            let reads_line : drop b.line_start text ≡ line ++ newline ∷ drop (suc nl) text =
              reads ∙ ap (λ t. seen ++ t) whole ∙ sym (append_assoc seen mid _) in
            let free_line = Lacks-append newline seen mid lacks free in
            let p = pushed b v same nl line below at_line reads_line free_line in
            let b' = record (push_line b b.tail_page b.line_start nl) { line_start = suc nl } in
            rw (found, index_lines)
              (one_line-IsIndexed b v same nl line below at_line reads_line free_line
                (index_lines fuel text (suc nl) b')
                (index_lines-IsIndexed fuel (suc nl) [] b' (IsStored-scanned_to _ _ _ p.stored)
                  (rw (p.same_pages, p.same_tail) same) below (omega arith) (omega arith) refl tt))
      ]

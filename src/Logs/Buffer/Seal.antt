-- ===== src/Logs/Buffer/Seal.antt =====
-- A fresh page, as `append` and `prepend` open it, keeps every extent; `append` seals only on a
-- line boundary.
use openshift_console.Prelude.{
  ◌≡◌, List, [], ◌∷◌, ◌++◌, length, ◌==◌, leb, ◌&&◌, arith, refl, sym, ◌∙◌, Bool-cases, inl, inr,
  length-append, get_or-append, get_or-append_at, get_or-append_default, drop_all,
}
use openshift_console.Prelude.Text.{Text}
use openshift_console.Logs.Buffer.{LogBuffer, page_text, new_page, seal}
use openshift_console.Logs.Buffer.View.{
  Extent, live, lines, partial, extent_text, FitsIn, IsStored, IsValid,
}
use openshift_console.Logs.Buffer.Extents.{All-map, map-congr}

module _ (pages : List Text) (text : Text) where
  FitsIn-opened : (x : Extent) → FitsIn pages x → FitsIn (pages ++ text ∷ []) x
  FitsIn-opened x (h, k, l) = (
    omega (arith, length-append pages (text ∷ [])),
    k,
    rw (get_or-append pages (text ∷ []) x.page [] h) l,
  )

  pub extent_text-opened :
      (x : Extent) → FitsIn pages x → extent_text (pages ++ text ∷ []) x ≡ extent_text pages x
  extent_text-opened x (h, k, l) = rw (get_or-append pages (text ∷ []) x.page [] h)

module _ (b : LogBuffer) (v : IsStored b) (text : Text) where
  live-new_page : live (new_page b text) ≡ live b
  unfolding live new_page
  live-new_page = refl

  pub IsStored-new_page : IsStored (new_page b text)
  unfolding new_page
  IsStored-new_page = record {
    starts = v.starts;
    ends = v.ends;
    has_cells = v.has_cells;
    ordered = v.ordered;
    in_cells = v.in_cells;
    counters =
        omega (
          arith,
          v.counters,
          length-append b.pages (text ∷ []),
          length-append b.page_refs (0 ∷ []),
        );
    has_tail = omega (arith, v.has_tail, length-append b.pages (text ∷ []));
    keeps = v.keeps;
    fits = rw live-new_page (All-map (live b) (FitsIn-opened b.pages text) v.fits);
    counted = λ p. rw live-new_page (get_or-append_default b.page_refs p 0 ∙ v.counted p);
  }

  pub lines-new_page : lines (new_page b text) ≡ lines b
  unfolding lines new_page
  lines-new_page =
      rw live-new_page
        (map-congr (FitsIn b.pages) _ _ (live b) (extent_text-opened b.pages text) v.fits)

-- What sealing keeps.
pub record IsSealed (b b' : LogBuffer) : Type 0 where
  pub valid : IsValid b'
  pub same_lines : lines b' ≡ lines b
  pub same_partial : partial b' ≡ partial b
  pub same_max : b'.max_lines ≡ b.max_lines
  pub same_seq : b'.base_seq ≡ b.base_seq
  pub same_size : b'.page_size ≡ b.page_size

module _ (b : LogBuffer) (v : IsValid b) where
  -- The buffer that writes into a fresh page.
  abbrev sealed : LogBuffer
  sealed = record (new_page b []) { tail_page = length b.pages; line_start = 0; scan_from = 0 }

  IsStored-sealed : IsStored sealed
  unfolding new_page live
  IsStored-sealed =
      let w = IsStored-new_page b v.stored [] in
      record {
        starts = w.starts;
        ends = w.ends;
        has_cells = w.has_cells;
        ordered = w.ordered;
        in_cells = w.in_cells;
        counters = w.counters;
        has_tail = omega (arith, length-append b.pages ([] ∷ []));
        keeps = w.keeps;
        fits = w.fits;
        counted = w.counted;
      }

  fresh : page_text sealed sealed.tail_page ≡ []
  unfolding new_page
  fresh = get_or-append_at b.pages ([] ∷ []) (length b.pages) [] refl

  lines-sealed : lines sealed ≡ lines b
  unfolding lines live new_page
  lines-sealed = lines-new_page b v.stored []

  pub seal-IsSealed : IsSealed b (seal b)
  unfolding seal partial
  seal-IsSealed =
      let text = page_text b b.tail_page in
      elim (Bool-cases (leb b.page_size (length text) && (b.line_start == length text))) [
        | inl full ↦
            let at_end : b.line_start ≡ length text = ground arith in
            rw full (record {
              valid = record {
                stored = IsStored-sealed;
                scanned = rw fresh;
                started = omega arith;
                unbroken = rw fresh tt;
              };
              same_lines = lines-sealed;
              same_partial = fresh ∙ sym (drop_all b.line_start text (omega arith));
              same_max = unfold new_page in refl;
              same_seq = unfold new_page in refl;
              same_size = unfold new_page in refl;
            })
        | inr not_full ↦ rw not_full (record {
          valid = v;
          same_lines = refl;
          same_partial = refl;
          same_max = refl;
          same_seq = refl;
          same_size = refl;
        })
      ]

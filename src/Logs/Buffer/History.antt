-- ===== src/Logs/Buffer/History.antt =====
-- `prepend`, `clear` and the constructor: what they do to the lines and their numbers.
use openshift_console.Prelude.{
  All, ℕ, zero, suc, ◌+◌, ◌<◌, ◌≡◌, List, [], ◌∷◌, ◌++◌, map, length, ◌==◌, arith, refl, sym, ap,
  ◌∙◌, Bool-cases, inl, inr, get_or-append, get_elem?, true, drop, length-replicate, replicate,
  get_or,
}
use openshift_console.Prelude.Int.{ℤ, pos, ◌-ℤ◌, ◌+ℤ◌, int_laws}
use openshift_console.Prelude.Text.{Text, split}
use openshift_console.Logs.Buffer.{
  LogBuffer, LogBufferOptions, new_page, page_text, new_buffer, clear, initial_capacity,
}
use openshift_console.Logs.Buffer.Read.{line_at}
use openshift_console.Logs.Buffer.Front.{place_extents, prepend, find_extents}
use openshift_console.Logs.Buffer.View.{zip_extents, live, lines, partial, IsValid, count_page}
use openshift_console.Logs.Buffer.Extents.{length-map}
use openshift_console.Logs.Buffer.Spec.{trim_cr}
use openshift_console.Logs.Buffer.Seal.{IsStored-new_page, lines-new_page}
use openshift_console.Logs.Buffer.Scan.{cut, IsInside, nonempty, front_lines, find_extents_lem}
use openshift_console.Logs.Buffer.Prepend.{Fronted, result-Fronted}
use openshift_console.Logs.Buffer.Lookup.{line_at-lines}

-ℤ-zero : (a : ℤ) → a ≡ a -ℤ pos 0
-ℤ-zero a = omega int_laws

pub length-zero {ℓ} : {A : Type ℓ} (xs : List A) → (length xs == 0) ≡ true → xs ≡ []
length-zero [] h = refl
length-zero (x ∷ xs) h = absurd (ground arith)

module _ (b : LogBuffer) (v : IsValid b) (chunk : Text) where
  same_text : page_text (new_page b chunk) b.tail_page ≡ page_text b b.tail_page
  unfolding new_page
  same_text = get_or-append b.pages (chunk ∷ []) b.tail_page [] v.stored.has_tail

  new_page-Fronted : Fronted b (new_page b chunk) []
  unfolding new_page partial
  new_page-Fronted = record {
    valid = record {
      stored = IsStored-new_page b v.stored chunk;
      scanned = rw same_text v.scanned;
      started = rw same_text v.started;
      unbroken = rw same_text v.unbroken;
    };
    shown = lines-new_page b v.stored chunk;
    unfinished = ap (drop b.line_start) same_text;
    numbered = -ℤ-zero b.base_seq;
    same_max = refl;
    same_size = refl;
  }

  place_extents-Fronted :
      (xs : List (ℕ × ℕ))
      → All (IsInside chunk) xs
      → Fronted b (place_extents b chunk xs) (map trim_cr (map (cut chunk) xs))
  unfolding place_extents
  place_extents-Fronted xs inside = elim (Bool-cases (length xs == 0)) [
    | inl nothing ↦ rw nothing (rw (length-zero xs nothing) new_page-Fronted)
    | inr some_lines ↦ rw some_lines (result-Fronted b v chunk xs inside)
  ]

unchanged-Fronted : (b : LogBuffer) → IsValid b → Fronted b b []
unchanged-Fronted b v = record {
  valid = v;
  shown = refl;
  unfinished = refl;
  numbered = -ℤ-zero b.base_seq;
  same_max = refl;
  same_size = refl;
}

no_front : front_lines [] ≡ []
unfolding front_lines nonempty split
no_front = refl

-- Prepending a chunk to a valid buffer leaves it valid, puts the lines of the chunk that are not
-- blank in front of the retained ones, under the numbers just below `firstSeq`, keeps the
-- unfinished text, and returns how many lines were added.
pub prepend-Fronted :
    (b : LogBuffer) (chunk : Text)
    → IsValid b
    → Fronted b (prepend b chunk).0 (front_lines chunk)
      × ((prepend b chunk).1 ≡ length (front_lines chunk))
unfolding prepend
prepend-Fronted b [] v = rw no_front (unchanged-Fronted b v, refl)
prepend-Fronted b (c ∷ rest) v =
    let chunk : Text = c ∷ rest in
    let (texts, inside) =
      find_extents_lem chunk (suc (length chunk)) 0 (omega arith) (omega arith) in
    let fronts : map trim_cr (map (cut chunk) (find_extents (suc (length chunk)) chunk 0))
        ≡ front_lines chunk =
      unfold front_lines in ap (map trim_cr) texts in
    (
      rw (← fronts) (place_extents-Fronted b v chunk _ inside),
      sym (
          ap length (sym fronts)
          ∙ length-map trim_cr (map (cut chunk) _)
          ∙ length-map (cut chunk) _),
    )

get_elem?-append_more {ℓ} :
    {A : Type ℓ} (xs ys : List A) (m k : ℕ)
    → m ≡ length xs + k
    → get_elem? (xs ++ ys) m ≡ get_elem? ys k
get_elem?-append_more [] ys m k e = ap (get_elem? ys) (omega arith)
get_elem?-append_more (x ∷ xs) ys zero k e = absurd (omega arith)
get_elem?-append_more (x ∷ xs) ys (suc m) k e = get_elem?-append_more xs ys m k (omega arith)

renumbered_lem : (a : ℤ) (n k : ℕ) → a +ℤ pos k ≡ a -ℤ pos n +ℤ pos (n + k)
renumbered_lem a n k = omega int_laws

renumbered : (a c : ℤ) (n k : ℕ) → c ≡ a -ℤ pos n → a +ℤ pos k ≡ c +ℤ pos (n + k)
renumbered a c n k e = rw e (renumbered_lem a n k)

-- Paging backwards moves no line: every sequence number from the old `firstSeq` on names the line
-- that it named before.
pub line_at-prepend :
    (b : LogBuffer) (chunk : Text) (k : ℕ)
    → IsValid b
    → line_at (prepend b chunk).0 (b.base_seq +ℤ pos k) ≡ line_at b (b.base_seq +ℤ pos k)
line_at-prepend b chunk k v =
    let f = (prepend-Fronted b chunk v).0 in
    let b' = (prepend b chunk).0 in
    let n = length (front_lines chunk) in
    ap (line_at b') (renumbered b.base_seq b'.base_seq n k f.numbered)
    ∙ (line_at-lines b' (n + k) f.valid).0
    ∙ ap (λ ls. get_elem? ls (n + k)) f.shown
    ∙ get_elem?-append_more (front_lines chunk) (lines b) (n + k) k refl
    ∙ sym (line_at-lines b k v).0

-- A buffer with one empty page and no line.
module _ (most size gen : ℕ) (p s e : List ℕ) where
  abbrev empty_buffer : LogBuffer
  empty_buffer = record {
    max_lines = most;
    page_size = size;
    pages = [] ∷ [];
    page_refs = 0 ∷ [];
    tail_page = 0;
    page_of = p;
    start_at = s;
    end_at = e;
    base = 0;
    used = 0;
    base_seq = pos 0;
    line_start = 0;
    scan_from = 0;
    gen = gen;
  }

  no_references : (q : ℕ) → get_or {A = ℕ} (0 ∷ []) q 0 ≡ 0
  no_references zero = refl
  no_references (suc q) = refl

  empty_buffer_lem :
      0 < most
      → 0 < length p
      → length s ≡ length p
      → length e ≡ length p
      → IsValid empty_buffer × (lines empty_buffer ≡ []) × (partial empty_buffer ≡ [])
  unfolding lines live partial zip_extents count_page
  empty_buffer_lem k h ls le = (
    record {
      stored = record {
        starts = ls;
        ends = le;
        has_cells = h;
        ordered = omega arith;
        in_cells = omega arith;
        counters = refl;
        has_tail = omega arith;
        keeps = k;
        fits = tt;
        counted = no_references;
      };
      scanned = refl;
      started = omega arith;
      unbroken = tt;
    },
    refl,
    refl,
  )

-- A new buffer is valid and shows nothing, whatever the options say.
pub new_buffer-IsValid :
    (options : LogBufferOptions)
    → IsValid (new_buffer options)
      × (lines (new_buffer options) ≡ [])
      × (partial (new_buffer options) ≡ [])
unfolding new_buffer
new_buffer-IsValid options =
    empty_buffer_lem _ _ 0 (replicate initial_capacity 0) (replicate initial_capacity 0)
      (replicate initial_capacity 0) (omega arith)
      (omega (arith, length-replicate {A = ℕ} initial_capacity 0)) refl refl

-- `clear` empties a valid buffer, restarts the sequence numbers at zero, and raises the generation,
-- so that no line of the new stream is taken for one of the old.
pub clear-IsValid :
    (b : LogBuffer)
    → IsValid b
    → IsValid (clear b)
      × (lines (clear b) ≡ [])
      × (partial (clear b) ≡ [])
      × ((clear b).base_seq ≡ pos 0)
      × ((clear b).gen ≡ suc b.gen)
      × ((clear b).max_lines ≡ b.max_lines)
unfolding clear
clear-IsValid b v =
    let s = v.stored in
    let (valid, shown, rest) =
      empty_buffer_lem b.max_lines b.page_size (b.gen + 1) b.page_of b.start_at b.end_at s.keeps
        s.has_cells s.starts s.ends in
    (valid, shown, rest, refl, omega arith, refl)

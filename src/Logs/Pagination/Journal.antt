-- ===== src/Logs/Pagination/Journal.antt =====
-- A page of the journal, read backwards from the entry that is already held; and splitting a body
-- into lines.
use openshift_console.Prelude.{
  All, ◌≡◌, true, false, List, [], ◌∷◌, ◌++◌, Option, some, refl, ap, ◌∙◌, arith, append_assoc,
  append-nil,
}
use mathlib.Core.List.{reverse, reverse-append, reverse-reverse}
use openshift_console.Prelude.Json.{Value}
use openshift_console.Prelude.Text.{Text, same, split, join, Lacks}
use openshift_console.Prelude.Text.Lines.{split-append_sep, front_parts-append, last_part-append}
use openshift_console.Prelude.Text.Equality.{same_refl}
use openshift_console.Logs.Buffer.Extents.{All-append}
use openshift_console.Logs.Buffer.Read.{text_of_lines}
use openshift_console.Logs.Pagination.{
  cursor_of, same_cursor, keep_entries, earlier_journal_lines, split_lines,
}

-- A line with text in it, and a cursor other than the anchor's.
abbrev pub IsOther : (Text → Option Text) → Option Text → Text → Type 0
IsOther cursor anchor line = (same line [] ≡ false) × (same_cursor (cursor line) anchor ≡ false)

module _ (cursor : Text → Option Text) (anchor : Option Text) where
  keep_entries-All :
      (lines : List Text)
      → All (IsOther cursor anchor) lines
      → keep_entries cursor anchor lines ≡ lines
  unfolding keep_entries
  keep_entries-All [] h = refl
  keep_entries-All (line ∷ lines) ((text, other), h) = rw (text, other, keep_entries-All lines h)

  keep_entries_anchor :
      (line : Text) (lines : List Text)
      → same_cursor (cursor line) anchor ≡ true
      → keep_entries cursor anchor (line ∷ lines) ≡ keep_entries cursor anchor lines
  unfolding keep_entries
  keep_entries_anchor line lines same_one = ground arith

  All-reverse :
      (lines : List Text)
      → All (IsOther cursor anchor) lines
      → All (IsOther cursor anchor) (reverse lines)
  All-reverse [] h = tt
  All-reverse (line ∷ lines) (o, h) =
      rw (reverse-append (line ∷ []) lines) (
        All-append (IsOther cursor anchor) (reverse lines) (line ∷ []) (All-reverse lines h)
          (o, tt))

same_cursor_refl : (c : Text) → same_cursor (some c) (some c) ≡ true
unfolding same_cursor
same_cursor_refl c = same_refl c

-- A page that begins with the anchor entry and goes back in time, entry by entry, comes out in
-- reading order and without the anchor, if no other entry is blank or has the anchor's cursor.
pub earlier_journal_lines-exact :
    {N : Type 0} (parse : Text → Option (Value N)) (older : List Text) (held c : Text)
    → cursor_of parse held ≡ some c
    → All (IsOther (cursor_of parse) (some c)) older
    → earlier_journal_lines parse (held ∷ reverse older) (some c) ≡ older
unfolding earlier_journal_lines
earlier_journal_lines-exact parse older held c at others =
    ap reverse (
      keep_entries_anchor (cursor_of parse) (some c) held (reverse older)
        (ap (λ d. same_cursor d (some c)) at ∙ same_cursor_refl c)
      ∙ keep_entries-All (cursor_of parse) (some c) (reverse older)
          (All-reverse (cursor_of parse) (some c) older others))
    ∙ reverse-reverse older

pub split-text_of_lines :
    (p : Text) (ps : List Text)
    → All (Lacks 10) (p ∷ ps)
    → split 10 (join 10 (p ∷ ps) ++ 10 ∷ []) ≡ (p ∷ ps) ++ [] ∷ []
unfolding join
split-text_of_lines p [] (h, _) = split-append_sep 10 p [] h ∙ (unfold split in refl)
split-text_of_lines p (q ∷ ps) (h, hs) =
    ap (split 10) (append_assoc p (10 ∷ join 10 (q ∷ ps)) (10 ∷ []))
    ∙ split-append_sep 10 p (join 10 (q ∷ ps) ++ 10 ∷ []) h
    ∙ ap (λ t. p ∷ t) (split-text_of_lines q ps hs)

-- Lines that hold no line break are read back from the body that they make, each with a line break
-- behind it.
pub split_lines-text_of_lines :
    (lines : List Text) → All (Lacks 10) lines → split_lines (text_of_lines lines) ≡ lines
unfolding split_lines text_of_lines
split_lines-text_of_lines [] h = unfold split same in refl
split_lines-text_of_lines (p ∷ ps) h =
    rw (split-text_of_lines p ps h, last_part-append (p ∷ ps) [] [], same_refl [])
      (front_parts-append (p ∷ ps) [] [] ∙ append-nil (p ∷ ps))

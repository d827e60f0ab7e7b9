-- ===== src/Logs/Buffer/Stream.antt =====
-- `append` and `flushPartial` against the reading of the whole text.
use openshift_console.Prelude.{
  ℕ, ◌-◌, ◌≡◌, List, [], ◌∷◌, ◌++◌, length, drop, ltb, arith, sym, ap, ◌∙◌, Bool-cases, inl, inr,
  ◌≢◌, ◌⊎◌, length-drop, drop_all, take_all, ltb→lt,
}
use mathlib.Core.Path.{ap₂}
use openshift_console.Prelude.Int.{pos, ◌+ℤ◌}
use openshift_console.Prelude.Text.{Text, slice}
use openshift_console.Logs.Buffer.{
  LogBuffer, page_text, append, absorb, seal, flush_partial, push_line, trim_end,
}
use openshift_console.Logs.Buffer.View.{lines, partial, IsValid}
use openshift_console.Logs.Buffer.Spec.{whole_lines, remainder, newest, trim_cr, slice-trim_end}
use openshift_console.Logs.Buffer.Push.{push_line-IsPushed}
use openshift_console.Logs.Buffer.Index.{IsStored-scanned_to, lines-scanned_to, lines_pushed}
use openshift_console.Logs.Buffer.Evict.{evict-IsEvicted}
use openshift_console.Logs.Buffer.Append.{absorb-IsFed}
use openshift_console.Logs.Buffer.Seal.{seal-IsSealed}

-- What a step that adds lines does: the newest `max_lines` are kept, the rest of the text is
-- `rest`, and the first sequence number moves on by what was dropped.
pub record Gains (b b' : LogBuffer) (new : List Text) (rest : Text) : Type 0 where
  pub valid : IsValid b'
  pub shown : lines b' ≡ newest b.max_lines (lines b ++ new)
  pub unfinished : partial b' ≡ rest
  pub numbered : b'.base_seq ≡ b.base_seq +ℤ pos (length (lines b ++ new) - b.max_lines)
  pub same_max : b'.max_lines ≡ b.max_lines
  pub same_size : b'.page_size ≡ b.page_size

-- Appending a chunk that is not empty to a valid buffer leaves it valid, adds the lines that the
-- chunk completes (without a carriage return at their ends), keeps the newest `max_lines` of them
-- all, and holds the text behind the last line break for the next chunk.
pub append-Gains :
    (b : LogBuffer) (c : ℕ) (chunk : Text)
    → IsValid b
    → Gains b
        (append b (c ∷ chunk))
        (whole_lines (partial b ++ c ∷ chunk))
        (remainder (partial b ++ c ∷ chunk))
unfolding append
append-Gains b c chunk v =
    let fed = absorb-IsFed b v (c ∷ chunk) in
    let sealed = seal-IsSealed (absorb b (c ∷ chunk)) fed.valid in
    let evicted = evict-IsEvicted (seal (absorb b (c ∷ chunk))) sealed.valid in
    let most : (seal (absorb b (c ∷ chunk))).max_lines ≡ b.max_lines =
      sealed.same_max ∙ fed.same_max in
    let all_lines = sealed.same_lines ∙ fed.more_lines in
    record {
      valid = evicted.valid;
      shown = evicted.kept ∙ ap₂ newest most all_lines;
      unfinished = evicted.same_partial ∙ sealed.same_partial ∙ fed.rest;
      numbered =
          evicted.numbered
          ∙ ap₂ (λ s n. s +ℤ pos n) (sealed.same_seq ∙ fed.same_seq)
              (ap₂ (λ ls n. length ls - n) all_lines most);
      same_max = evicted.same_max ∙ most;
      same_size = evicted.same_size ∙ sealed.same_size ∙ fed.same_size;
    }

module _ (b : LogBuffer) (v : IsValid b) where
  abbrev text : Text
  text = page_text b b.tail_page

  abbrev flushed : LogBuffer
  flushed = record (push_line b b.tail_page b.line_start (length text)) { line_start = length text }

  flushed_lem :
      IsValid flushed
      × (lines flushed ≡ lines b ++ (trim_cr (partial b) ∷ []))
      × (partial flushed ≡ [])
      × (flushed.max_lines ≡ b.max_lines)
      × (flushed.base_seq ≡ b.base_seq)
      × (flushed.page_size ≡ b.page_size)
  unfolding partial
  flushed_lem =
      let p =
        push_line-IsPushed b v.stored b.tail_page b.line_start (length text)
          (v.stored.has_tail, v.started, omega arith) in
      let pushed = push_line b b.tail_page b.line_start (length text) in
      let same : page_text pushed pushed.tail_page ≡ text = rw (p.same_pages, p.same_tail) in
      let line : slice text b.line_start (trim_end text b.line_start (length text))
          ≡ trim_cr (drop b.line_start text) =
        slice-trim_end text b.line_start (length text) v.started (omega arith)
        ∙ ap trim_cr (take_all _ _ (omega (arith, length-drop b.line_start text))) in
      (
        record {
          stored = IsStored-scanned_to pushed (length text) pushed.scan_from p.stored;
          scanned = p.same_scan ∙ v.scanned ∙ sym (ap length same);
          started = rw same (omega arith);
          unbroken = rw (same, drop_all (length text) text (omega arith)) tt;
        },
        lines-scanned_to pushed (length text) pushed.scan_from
            ∙ lines_pushed b pushed _ p
            ∙ ap (λ t. lines b ++ t ∷ []) line,
        rw same (drop_all (length text) text (omega arith)),
        p.same_max,
        p.same_seq,
        p.same_size,
      )

-- Flushing a valid buffer leaves it valid and commits the unfinished line, if there is one; an
-- empty rest changes nothing.
pub flush_partial-Gains :
    (b : LogBuffer)
    → IsValid b
    → ((partial b ≡ []) × (flush_partial b ≡ b))
      ⊎ ((partial b ≢ []) × Gains b (flush_partial b) (trim_cr (partial b) ∷ []) [])
unfolding flush_partial partial
flush_partial-Gains b v =
    let (valid, more, none_left, most, seq, size) = flushed_lem b v in
    let evicted = evict-IsEvicted (flushed b v) valid in
    elim (Bool-cases (ltb b.line_start (length (text b v)))) [
      | inl some_left ↦ inr (
        λ e. omega (arith, ap length e, length-drop b.line_start (text b v), ltb→lt _ _ some_left),
        rw some_left (record {
          valid = evicted.valid;
          shown = evicted.kept ∙ ap₂ newest most more;
          unfinished = evicted.same_partial ∙ none_left;
          numbered =
              evicted.numbered
              ∙ ap₂ (λ s n. s +ℤ pos n) seq (ap₂ (λ ls n. length ls - n) more most);
          same_max = evicted.same_max ∙ most;
          same_size = evicted.same_size ∙ size;
        }),
      )
      | inr done ↦ inl (drop_all b.line_start (text b v) (ground arith), rw done)
    ]

-- ===== src/Logs/Buffer/Scan.antt =====
-- The scan of `prepend` finds the lines of the chunk that are not empty.
use openshift_console.Prelude.{
  All, ℕ, zero, suc, ◌-◌, ◌≤◌, ◌<◌, ◌≡◌, List, [], ◌∷◌, map, length, drop, take, arith, refl, sym,
  ap, ◌∙◌, ltb, Bool-cases, inl, inr, ltb→lt, ltb-false→le, length-drop, drop_all, take_all,
  take-append_more, append-nil,
}
use mathlib.Core.Path.{ap₂}
use openshift_console.Prelude.Text.{Text, slice, split}
use openshift_console.Prelude.Text.Lines.{index_of-cases, split-eq_single, split-append_sep}
use openshift_console.Logs.Buffer.{newline}
use openshift_console.Logs.Buffer.Front.{find_extents}
use openshift_console.Logs.Buffer.Spec.{trim_cr}

unfoldable pub nonempty : List Text → List Text
nonempty [] = []
nonempty ([] ∷ ps) = nonempty ps
nonempty ((c ∷ p) ∷ ps) = (c ∷ p) ∷ nonempty ps

-- The lines of a chunk of history: a blank line is dropped.
unfoldable pub front_lines : Text → List Text
front_lines chunk = map trim_cr (nonempty (split newline chunk))

abbrev pub cut : Text → ℕ × ℕ → Text
cut chunk (start, end) = slice chunk start end

abbrev pub IsInside : Text → ℕ × ℕ → Type 0
IsInside chunk (start, end) = (start < end) × (end ≤ length chunk)

nonempty-cons : (p : Text) (ps : List Text) → 0 < length p → nonempty (p ∷ ps) ≡ p ∷ nonempty ps
unfolding nonempty
nonempty-cons [] ps h = absurd (omega arith)
nonempty-cons (c ∷ p) ps h = refl

nonempty_blank : (p : Text) (ps : List Text) → length p ≤ 0 → nonempty (p ∷ ps) ≡ nonempty ps
unfolding nonempty
nonempty_blank [] ps h = refl
nonempty_blank (c ∷ p) ps h = absurd (omega arith)

nonempty_end : nonempty [] ≡ []
unfolding nonempty
nonempty_end = refl

nonempty_nothing : nonempty (split newline []) ≡ []
unfolding nonempty split
nonempty_nothing = refl

module _ (chunk : Text) where
  pub find_extents_lem :
      (fuel from : ℕ)
      → from ≤ length chunk
      → length chunk - from < fuel
      → (map (cut chunk) (find_extents fuel chunk from)
          ≡ nonempty (split newline (drop from chunk)))
        × All (IsInside chunk) (find_extents fuel chunk from)
  unfolding find_extents
  find_extents_lem zero from inside enough = absurd (omega arith)
  find_extents_lem (suc fuel) from inside enough = elim (Bool-cases (ltb from (length chunk))) [
    | inr ended ↦
        rw (ended, find_extents)
          (
            sym nonempty_nothing
                ∙ ap (λ t. nonempty (split newline t))
                    (sym (drop_all from chunk (ltb-false→le _ _ ended))),
            tt,
          )
    | inl more ↦ elim (index_of-cases chunk newline from inside) [
      | inl (missing, free) ↦
          rw (more, missing, find_extents)
            (
              ap (λ t. t ∷ []) (take_all _ _ (omega (arith, length-drop from chunk)))
                  ∙ sym (
                      ap nonempty (split-eq_single newline (drop from chunk) free)
                      ∙ nonempty-cons (drop from chunk) []
                          (omega (arith, length-drop from chunk, ltb→lt _ _ more))
                      ∙ ap (λ ps. drop from chunk ∷ ps) nonempty_end),
              ((ltb→lt _ _ more, omega arith), tt),
            )
      | inr (nl, mid, found, whole, free, here, below) ↦
          let (texts, fits) = find_extents_lem fuel (suc nl) below (omega arith) in
          let parts : split newline (drop from chunk) ≡ mid ∷ split newline (drop (suc nl) chunk) =
            ap (split newline) whole ∙ split-append_sep newline mid _ free in
          elim (Bool-cases (ltb from nl)) [
            | inl long ↦
                rw (more, found, find_extents)
                  (rw long (
                    ap₂ ◌∷◌
                          (ap (take (nl - from)) whole
                            ∙ take-append_more mid _ (nl - from) 0 (omega arith)
                            ∙ append-nil mid)
                          texts
                        ∙ sym (
                            ap nonempty parts
                            ∙ nonempty-cons mid _ (omega (arith, ltb→lt _ _ long))),
                    ((ltb→lt _ _ long, omega arith), fits),
                  ))
            | inr blank ↦
                rw (more, found, find_extents)
                  (rw blank (
                    texts
                        ∙ sym (
                            ap nonempty parts
                            ∙ nonempty_blank mid _ (omega (arith, ltb-false→le _ _ blank))),
                    fits,
                  ))
          ]
    ]
  ]
